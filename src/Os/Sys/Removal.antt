-- ===== src/Os/Sys/Removal.antt =====
-- os/linux/sys.c: a source is found again by its tag, and removed by it.
use hakit.Base.{
  find_from, find_from-some, find_from-none, ℕ, ◌+◌, ◌^◌, ◌<◌, ◌≡◌, ◌≢◌, ◌⊎◌, inl, inr, refl, ap,
  sym, subst, ◌∙◌, none, some, ◌==◌, get_or, length, arith, get_or-set_self, get_or-set_ne,
  Option-cases,
}
use hakit.Os.Sys.{
  removed, Source, Sys, no_source, set_source, source_add, retrieve, remove, as_timeout,
  sys_timeout,
}
use hakit.Os.Sys.Tags.{
  tag_at, born, IsTagged, Added, Retagged-IsTagged, Added-IsTagged, in_table, set_source-Retagged,
  source_add-cases,
}

retrieve-tag_at :
    (sys : Sys) (i : ℕ) → IsTagged sys → tag_at sys i ≢ 0 → retrieve sys (tag_at sys i) ≡ some i
unfolding retrieve
retrieve-tag_at sys i k tagged =
    elim (Option-cases (find_from (λ src. src.tag == tag_at sys i) 0 sys.sources)) [
      | inl missing ↦ absurd (
          ground (
            arith,
            find_from-none (λ src. src.tag == tag_at sys i) no_source 0 sys.sources missing i
                (in_table sys i tagged),
          ))
      | inr (j, found) ↦
          let (low, high, same) =
            find_from-some (λ src. src.tag == tag_at sys i) no_source 0 sys.sources j found in
          let e : tag_at sys i ≡ tag_at sys j = ground (arith, same) in
          found ∙ ap some (sym (k.distinct i j tagged e))
    ]

abbrev pub gone : Source → Source
gone src = record src { kind = removed; func = none; wfunc = none }

-- Where tags are distinct, `sys_remove` takes the callbacks away from the source with the tag, and
-- leaves every other source as it is.
remove-only :
    (sys : Sys) (i : ℕ)
    → IsTagged sys
    → tag_at sys i ≢ 0
    → (get_or (remove sys (tag_at sys i)).sources i no_source
        ≡ gone (get_or sys.sources i no_source))
      × ((j : ℕ)
          → i ≢ j
          → get_or (remove sys (tag_at sys i)).sources j no_source ≡ get_or sys.sources j no_source)
unfolding remove
remove-only sys i k tagged = (
  rw (remove, retrieve-tag_at sys i k tagged)
      (get_or-set_self sys.sources i (gone (get_or sys.sources i no_source)) no_source
        (in_table sys i tagged)),
  λ j ne.
      rw (remove, retrieve-tag_at sys i k tagged)
        (get_or-set_ne sys.sources (gone (get_or sys.sources i no_source)) no_source ne),
)

-- A timer that is set at a vacant place of the table, and removed again by its tag.
pub record SetAndRemoved (sys : Sys) (now delay func : ℕ) : Type 0 where
  pub place : ℕ
  pub vacant : tag_at sys place ≡ 0
  pub tag : (sys_timeout sys now delay func).0 ≡ sys.last_tag + 1
  pub pending :
      get_or (sys_timeout sys now delay func).1.sources place no_source
      ≡ as_timeout now delay (born func (sys.last_tag + 1))
  pub undone :
      get_or (remove (sys_timeout sys now delay func).1 (sys.last_tag + 1)).sources place no_source
      ≡ gone (as_timeout now delay (born func (sys.last_tag + 1)))
  pub others :
      (j : ℕ)
      → place ≢ j
      → (get_or (sys_timeout sys now delay func).1.sources j no_source
          ≡ get_or sys.sources j no_source)
        × (get_or (remove (sys_timeout sys now delay func).1 (sys.last_tag + 1)).sources j no_source
            ≡ get_or sys.sources j no_source)

set_and_removed :
    (sys : Sys) (now delay func : ℕ)
    → IsTagged sys
    → (i : ℕ) (sys' : Sys) → source_add sys func ≡ (some i, sys')
    → Added sys sys' func i
    → SetAndRemoved sys now delay func
unfolding sys_timeout
set_and_removed sys now delay func k i sys' e a =
    let src : Source = as_timeout now delay (born func (sys.last_tag + 1)) in
    let sys2 : Sys = set_source sys' i src in
    let timed : sys_timeout sys now delay func ≡ (sys.last_tag + 1, sys2) =
      rw (sys_timeout, e, a.new) refl in
    let tagged : tag_at sys' i ≢ 0 = λ z. absurd (omega (arith, z, ap (λ s. s.tag) a.new)) in
    let here : get_or sys2.sources i no_source ≡ src =
      get_or-set_self sys'.sources i src no_source (in_table sys' i tagged) in
    let tag2 : tag_at sys2 i ≡ sys.last_tag + 1 = ap (λ s. s.tag) here in
    let k2 : IsTagged sys2 =
      Retagged-IsTagged (set_source-Retagged sys' i src (inl (sym (ap (λ s. s.tag) a.new))))
        (Added-IsTagged a k) in
    let elsewhere : (j : ℕ)
        → i ≢ j
        → get_or sys2.sources j no_source ≡ get_or sys.sources j no_source =
      λ j ne. get_or-set_ne sys'.sources src no_source ne ∙ a.others j ne in
    let (undone, kept) = remove-only sys2 i k2 (λ z. absurd (omega (arith, z, tag2))) in
    record {
      place = i;
      vacant = a.vacant;
      tag = rw timed refl;
      pending = rw timed here;
      undone = rw timed (
          subst (λ t. get_or (remove sys2 t).sources i no_source ≡ gone src) tag2
            (undone ∙ ap gone here));
      others = λ j ne. (
        rw timed (elsewhere j ne),
        rw timed (
            subst (λ t. get_or (remove sys2 t).sources j no_source ≡ get_or sys.sources j no_source)
              tag2 (kept j ne ∙ elsewhere j ne)),
      );
    }

-- Where tags are distinct and one is left to give, `sys_timeout` either finds every place taken, gives
-- the tag 0 and changes nothing; or it gives the next tag and sets the timer at a vacant place, and
-- `sys_remove` of that tag takes the timer's callback away and leaves every other source as it was.
pub sys_timeout-remove :
    (sys : Sys) (now delay func : ℕ)
    → sys.last_tag + 1 < 2 ^ 32
    → IsTagged sys
    → ((sys_timeout sys now delay func ≡ (0, sys))
        × ((i : ℕ) → i < length sys.sources → tag_at sys i ≢ 0))
      ⊎ SetAndRemoved sys now delay func
unfolding sys_timeout
sys_timeout-remove sys now delay func small k = elim (source_add-cases sys func small) [
  | inl (e, full) ↦ inl (rw (sys_timeout, e) refl, full)
  | inr (i, sys', e, a) ↦ inr (set_and_removed sys now delay func k i sys' e a)
]
