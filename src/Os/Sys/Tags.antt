-- ===== src/Os/Sys/Tags.antt =====
-- os/linux/sys.c: the tags of the sources, by which the rest of the program knows them.
use hakit.Base.{
  find_from, find_from-some, find_from-none, get_or-beyond, ℕ, ◌+◌, ◌%◌, ◌^◌, ◌≤◌, ◌<◌, ◌≡◌, ◌≢◌,
  ◌⊎◌, inl, inr, refl, ap, sym, ◌∙◌, none, some, List, ◌==◌, get_or, set, length, arith,
  get_or-set_self, get_or-set_ne, length-set, Option-cases, ℕ_discrete, dec_lt, mod-eq_of_lt,
}
use hakit.Os.Sys.{Source, Sys, no_source, set_source, source_add, set_up}

abbrev pub tag_at : Sys → ℕ → ℕ
tag_at sys i = (get_or sys.sources i no_source).tag

-- Every tag is one of those given so far, and no two sources have the same.
pub record IsTagged (sys : Sys) : Type 0 where
  pub given : (i : ℕ) → tag_at sys i ≤ sys.last_tag
  pub distinct : (i j : ℕ) → tag_at sys i ≢ 0 → tag_at sys i ≡ tag_at sys j → i ≡ j

-- A source with a tag stands in the table.
pub in_table : (sys : Sys) (i : ℕ) → tag_at sys i ≢ 0 → i < length sys.sources
in_table sys i tagged = elim (dec_lt i (length sys.sources)) [
  | yes h ↦ h
  | no h ↦ absurd (tagged (ap (λ s. s.tag) (get_or-beyond no_source sys.sources i (omega arith))))
]

-- What is done to the table so that each source keeps its tag or loses it.
pub record Retagged (sys sys' : Sys) : Type 0 where
  pub latest : sys'.last_tag ≡ sys.last_tag
  pub tags : (i : ℕ) → (tag_at sys' i ≡ tag_at sys i) ⊎ (tag_at sys' i ≡ 0)

pub Retagged-IsTagged : {sys sys' : Sys} → Retagged sys sys' → IsTagged sys → IsTagged sys'
Retagged-IsTagged {sys} {sys'} r k = record {
  given = λ i. elim (r.tags i) [
    | inl e ↦ omega (arith, k.given i, e, r.latest)
    | inr e ↦ omega (arith, e)
  ];
  distinct = λ i j tagged same. elim (r.tags i) [
    | inr e ↦ absurd (tagged e)
    | inl e ↦ elim (r.tags j) [
      | inr e' ↦ absurd (tagged (same ∙ e'))
      | inl e' ↦ k.distinct i j (λ z. tagged (e ∙ z)) (sym e ∙ same ∙ e')
    ]
  ];
}

pub get_or-set :
    (xs : List Source) (i j : ℕ) (src : Source)
    → ((i ≡ j) × (get_or (set xs i src) j no_source ≡ src))
      ⊎ (get_or (set xs i src) j no_source ≡ get_or xs j no_source)
get_or-set xs i j src = elim (ℕ_discrete i j) [
  | no ne ↦ inr (get_or-set_ne xs src no_source ne)
  | yes e ↦ elim (dec_lt i (length xs)) [
    | yes h ↦ inl (e, rw (← e) (get_or-set_self xs i src no_source h))
    | no h ↦ inr (
        get_or-beyond no_source (set xs i src) j (omega (arith, length-set xs i src))
        ∙ sym (get_or-beyond no_source xs j (omega arith)))
  ]
]

pub set_source-Retagged :
    (sys : Sys) (i : ℕ) (src : Source)
    → (src.tag ≡ tag_at sys i) ⊎ (src.tag ≡ 0)
    → Retagged sys (set_source sys i src)
set_source-Retagged sys i src kept = record {
  latest = refl;
  tags = λ j. elim (get_or-set sys.sources i j src) [
    | inr e ↦ inl (ap (λ s. s.tag) e)
    | inl (same, e) ↦ elim kept [
      | inl k ↦ inl (ap (λ s. s.tag) e ∙ k ∙ ap (tag_at sys) same)
      | inr z ↦ inr (ap (λ s. s.tag) e ∙ z)
    ]
  ];
}

-- What `source_add` does when it finds a place.
pub record Added (sys sys' : Sys) (func i : ℕ) : Type 0 where
  pub latest : sys'.last_tag ≡ sys.last_tag + 1
  pub vacant : tag_at sys i ≡ 0
  pub new :
      get_or sys'.sources i no_source
      ≡ record no_source { tag = sys.last_tag + 1; func = some func }
  pub others : (j : ℕ) → i ≢ j → get_or sys'.sources j no_source ≡ get_or sys.sources j no_source

abbrev pub born : ℕ → ℕ → Source
born func tag = record no_source { tag = tag; func = some func }

abbrev pub with_born : Sys → ℕ → ℕ → ℕ → Sys
with_born sys func tag i = set_source (record sys { last_tag = tag }) i (born func tag)

pub source_add-cases :
    (sys : Sys) (func : ℕ)
    → sys.last_tag + 1 < 2 ^ 32
    → ((source_add sys func ≡ (none, sys)) × ((i : ℕ) → i < length sys.sources → tag_at sys i ≢ 0))
      ⊎ ((i : ℕ) × (sys' : Sys) × (source_add sys func ≡ (some i, sys')) × Added sys sys' func i)
unfolding source_add
source_add-cases sys func small =
    elim (Option-cases (find_from (λ src. src.tag == 0) 0 sys.sources)) [
      | inl missing ↦ inl (
        rw (source_add, missing) refl,
        λ i h z.
            ground
              (arith, z, find_from-none (λ src. src.tag == 0) no_source 0 sys.sources missing i h),
      )
      | inr (i, found) ↦
          let (low, high, vacant) =
            find_from-some (λ src. src.tag == 0) no_source 0 sys.sources i found in
          let step : (sys.last_tag + 1) % 2 ^ 32 ≡ sys.last_tag + 1 = mod-eq_of_lt small in
          inr (
            i,
            with_born sys func (sys.last_tag + 1) i,
            rw (source_add, found, step) refl,
            record {
              latest = refl;
              vacant = ground (arith, vacant);
              new =
                  get_or-set_self sys.sources i (born func (sys.last_tag + 1)) no_source
                    (omega arith);
              others =
                  λ j ne. get_or-set_ne sys.sources (born func (sys.last_tag + 1)) no_source ne;
            },
          )
    ]

pub Added-IsTagged :
    {sys sys' : Sys} {func i : ℕ} → Added sys sys' func i → IsTagged sys → IsTagged sys'
Added-IsTagged {sys} {sys'} {func} {i} a k = record {
  given = λ j. elim (ℕ_discrete i j) [
    | yes e ↦ omega (arith, a.latest, here j e)
    | no ne ↦ omega (arith, a.latest, elsewhere j ne, k.given j)
  ];
  distinct = λ j1 j2 tagged same. elim (ℕ_discrete i j1) [
    | yes e1 ↦ elim (ℕ_discrete i j2) [
      | yes e2 ↦ omega arith
      | no n2 ↦ absurd (omega (arith, here j1 e1, elsewhere j2 n2, k.given j2, same))
    ]
    | no n1 ↦ elim (ℕ_discrete i j2) [
      | yes e2 ↦ absurd (omega (arith, here j2 e2, elsewhere j1 n1, k.given j1, same))
      | no n2 ↦
          k.distinct j1 j2 (λ z. tagged (elsewhere j1 n1 ∙ z))
            (sym (elsewhere j1 n1) ∙ same ∙ elsewhere j2 n2)
    ]
  ];
}
  where
    here : (j : ℕ) → i ≡ j → tag_at sys' j ≡ sys.last_tag + 1
    here j e = ap (tag_at sys') (sym e) ∙ ap (λ s. s.tag) a.new

    elsewhere : (j : ℕ) → i ≢ j → tag_at sys' j ≡ tag_at sys j
    elsewhere j ne = ap (λ s. s.tag) (a.others j ne)

-- A source is set up in place; its tag stays.
pub set_up-Retagged :
    (f : Source → Source) (keeps : (src : Source) → (f src).tag ≡ src.tag) (i : ℕ) (sys : Sys)
    → Retagged sys (set_up f (some i, sys)).1
set_up-Retagged f keeps i sys =
    set_source-Retagged sys i (f (get_or sys.sources i no_source))
      (inl (keeps (get_or sys.sources i no_source)))

pub set_up-source_add-IsTagged :
    (f : Source → Source) (keeps : (src : Source) → (f src).tag ≡ src.tag) (sys : Sys) (func : ℕ)
    → sys.last_tag + 1 < 2 ^ 32
    → IsTagged sys
    → IsTagged (set_up f (source_add sys func)).1
set_up-source_add-IsTagged f keeps sys func small k = elim (source_add-cases sys func small) [
  | inl (e, full) ↦ rw e k
  | inr (i, sys', e, a) ↦
      rw e (Retagged-IsTagged (set_up-Retagged f keeps i sys') (Added-IsTagged a k))
]
