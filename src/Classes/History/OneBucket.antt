-- ===== src/Classes/History/OneBucket.antt =====
-- classes/history/history.c and main.c: the log stays in one bucket.
use hakit.Base.{
  some, ℕ, ◌+◌, ◌≡◌, refl, ◌∙◌, List, [], ◌∷◌, ℤ, pos, ◌+ℤ◌, ◌==◌, eq_ℤ, leb_ℤ, ltb_ℤ, ◌&&◌,
  Bool-cases, inl, inr, negsuc,
}
use hakit.Classes.History.Writer.{
  History, init, bucket_start, signal_declare, select_id, select_time, select, feed_int, feed_str,
  feed_value, rotate, cancel_timeout, feed, all_digits, strtoll,
}
use hakit.Classes.History.Object.{Sample, declare_all, new_object, input, inputs, split_inputs}

select_id-ibucket : (h : History) (id : ℤ) → (select_id h id).ibucket ≡ h.ibucket
unfolding select_id
select_id-ibucket h id = elim (Bool-cases (eq_ℤ id h.current_id)) [
  | inl e ↦ rw e refl
  | inr e ↦ rw e refl
]

select_time-ibucket : (h : History) (now : ℤ) → (select_time h now).ibucket ≡ h.ibucket
unfolding select_time
select_time-ibucket h now = elim (Bool-cases (eq_ℤ now h.t)) [
  | inl e ↦ rw e refl
  | inr e ↦ rw e refl
]

feed_int-ibucket : (h : History) (v : ℤ) → (feed_int h v).ibucket ≡ h.ibucket
unfolding feed_int
feed_int-ibucket h v = elim (Bool-cases (leb_ℤ (negsuc 31) v && ltb_ℤ v (pos 31))) [
  | inl e ↦ rw e refl
  | inr e ↦ rw e refl
]

feed_value-ibucket : (h : History) (value : List ℕ) → (feed_value h value).ibucket ≡ h.ibucket
unfolding feed_value feed_str
feed_value-ibucket h value = elim (Bool-cases (all_digits value)) [
  | inl e ↦ rw e (feed_int-ibucket h (strtoll value))
  | inr e ↦ rw e refl
]

cancel_timeout-ibucket : (h : History) → (cancel_timeout h).0.ibucket ≡ h.ibucket
unfolding cancel_timeout
cancel_timeout-ibucket h = elim (Bool-cases (h.timeout_tag == 0)) [
  | inl e ↦ rw e refl
  | inr e ↦ rw e refl
]

input-ibucket : (h : History) (x : Sample) → (input h x).ibucket ≡ h.ibucket
unfolding input feed rotate select
input-ibucket h x =
    let h1 = (cancel_timeout h).0 in
    let h2 = select_id h1 (pos x.id) in
    let h3 = select_time h2 (h.t +ℤ pos x.delay) in
    feed_value-ibucket h3 x.value
    ∙ select_time-ibucket h2 (h.t +ℤ pos x.delay)
    ∙ select_id-ibucket h1 (pos x.id)
    ∙ cancel_timeout-ibucket h

inputs-same : (h : History) (xs : List Sample) → (inputs h xs).ibucket ≡ h.ibucket
unfolding inputs
inputs-same h [] = refl
inputs-same h (x ∷ xs) = inputs-same (input h x) xs ∙ input-ibucket h x

declare_all-ibucket :
    (h : History) (id : ℕ) (names : List (List ℕ)) → (declare_all h id names).ibucket ≡ h.ibucket
unfolding declare_all signal_declare
declare_all-ibucket h id [] = refl
declare_all-ibucket h id (name ∷ names) =
    declare_all-ibucket (signal_declare h (pos id) name) (id + 1) names

new_object-ibucket : (now : ℤ) (prop : List ℕ) → (new_object now (some prop)).ibucket ≡ 0
unfolding new_object init bucket_start
new_object-ibucket now prop = declare_all-ibucket (init now) 1 (split_inputs prop)

-- Whatever a history object gets, and however much that is, its log stays in the first bucket: the test
-- for a full bucket never succeeds.
pub inputs-ibucket :
    (now : ℤ) (prop : List ℕ) (xs : List Sample)
    → (inputs (new_object now (some prop)) xs).ibucket ≡ 0
inputs-ibucket now prop xs =
    inputs-same (new_object now (some prop)) xs ∙ new_object-ibucket now prop
