-- ===== src/Os/Sys/Places.antt =====
-- os/linux/sys.c: reading and writing one place of the table.
use hakit.Base.{ℕ, zero, suc, ◌≡◌, refl, ap, List, [], ◌∷◌, ◌++◌, get_or, set, length}
use hakit.Os.Sys.{Source, no_source}

pub get_or-append :
    (xs : List Source) (x : Source) (ys : List Source)
    → get_or (xs ++ (x ∷ ys)) (length xs) no_source ≡ x
get_or-append [] x ys = refl
get_or-append (y ∷ xs) x ys = get_or-append xs x ys

pub set-append :
    (xs : List Source) (x : Source) (ys : List Source) (y : Source)
    → set (xs ++ (x ∷ ys)) (length xs) y ≡ xs ++ (y ∷ ys)
set-append [] x ys y = refl
set-append (z ∷ xs) x ys y = ap (◌∷◌ z) (set-append xs x ys y)

pub append_assoc_one :
    (xs : List Source) (x : Source) (ys : List Source) → xs ++ (x ∷ ys) ≡ (xs ++ (x ∷ [])) ++ ys
append_assoc_one [] x ys = refl
append_assoc_one (z ∷ xs) x ys = ap (◌∷◌ z) (append_assoc_one xs x ys)

pub get_or-set_none :
    (xs : List Source) (i : ℕ) → get_or (set xs i no_source) i no_source ≡ no_source
get_or-set_none [] i = refl
get_or-set_none (x ∷ xs) zero = refl
get_or-set_none (x ∷ xs) (suc i) = get_or-set_none xs i
