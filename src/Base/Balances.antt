-- ===== src/Base/Balances.antt =====
-- A persistent storage map from addresses to amounts, in which an absent key reads as 0.
use principal.Base.{ℕ, ◌≡◌, refl, List, [], ◌∷◌, arith, ◌==◌, if◌then◌else◌}
use principal.Base.Int.{ℤ, pos, ◌+ℤ◌, ◌-ℤ◌, ◌≤ℤ◌, int_laws}

abbrev pub Balances : Type 0
Balances = List (ℕ × ℤ)

-- `storage().persistent().get(&key).unwrap_or(0)`
unfoldable pub get_amount : Balances → ℕ → ℤ
get_amount [] a = pos 0
get_amount ((k, v) ∷ b) a = if k == a then v else get_amount b a

-- `storage().persistent().set(&key, &amount)`
unfoldable pub set_amount : Balances → ℕ → ℤ → Balances
set_amount [] a x = (a, x) ∷ []
set_amount ((k, v) ∷ b) a x = if k == a then (k, x) ∷ b else (k, v) ∷ set_amount b a x

-- The amounts of all the accounts together.
unfoldable pub sum : Balances → ℤ
sum [] = pos 0
sum ((_, v) ∷ b) = v +ℤ sum b

pub get-set_amount :
    (b : Balances) (k j : ℕ) (x : ℤ)
    → get_amount (set_amount b k x) j ≡ (if k == j then x else get_amount b j)
unfolding get_amount set_amount
get-set_amount [] k j x = refl
get-set_amount ((i, v) ∷ b) k j x = ground (arith, get-set_amount b k j x)

pub sum-set_amount :
    (b : Balances) (k : ℕ) (x : ℤ) → sum (set_amount b k x) +ℤ get_amount b k ≡ sum b +ℤ x
unfolding get_amount set_amount sum
sum-set_amount [] k x = omega int_laws
sum-set_amount ((i, v) ∷ b) k x = grind (int_laws, sum-set_amount b k x)

-- No entry is negative.
abbrev pub AllNonneg : Balances → Type 0
AllNonneg [] = Unit
AllNonneg ((_, v) ∷ b) = (pos 0 ≤ℤ v) × AllNonneg b

pub get_amount-nonneg : (b : Balances) (a : ℕ) → AllNonneg b → pos 0 ≤ℤ get_amount b a
unfolding get_amount
get_amount-nonneg [] a h = omega arith
get_amount-nonneg ((k, v) ∷ b) a h = ground (arith, get_amount-nonneg b a h.1)

set_amount-AllNonneg :
    (b : Balances) (a : ℕ) (x : ℤ) → pos 0 ≤ℤ x → AllNonneg b → AllNonneg (set_amount b a x)
unfolding set_amount
set_amount-AllNonneg [] a x hx h = ground arith
set_amount-AllNonneg ((k, v) ∷ b) a x hx h = ground (arith, set_amount-AllNonneg b a x hx h.1)

sum-nonneg : (b : Balances) → AllNonneg b → pos 0 ≤ℤ sum b
unfolding sum
sum-nonneg [] h = omega arith
sum-nonneg ((k, v) ∷ b) h = grind (int_laws, sum-nonneg b h.1)

pub get_amount-le-sum : (b : Balances) (a : ℕ) → AllNonneg b → get_amount b a ≤ℤ sum b
unfolding get_amount sum
get_amount-le-sum [] a h = omega arith
get_amount-le-sum ((k, v) ∷ b) a h = grind (int_laws, get_amount-le-sum b a h.1, sum-nonneg b h.1)

-- `amount` moved from one account to another: first taken off, then put on.
abbrev pub take_off : Balances → ℕ → ℤ → Balances
take_off b from amount = set_amount b from (get_amount b from -ℤ amount)

abbrev pub put_on : Balances → ℕ → ℤ → Balances
put_on b to amount = set_amount b to (get_amount b to +ℤ amount)

unfoldable pub move : Balances → ℕ → ℕ → ℤ → Balances
move b from to amount = put_on (take_off b from amount) to amount

pub sum-put_on : (b : Balances) (a : ℕ) (x : ℤ) → sum (put_on b a x) ≡ sum b +ℤ x
sum-put_on b a x = grind (int_laws, sum-set_amount b a (get_amount b a +ℤ x))

pub sum-take_off : (b : Balances) (a : ℕ) (x : ℤ) → sum (take_off b a x) ≡ sum b -ℤ x
sum-take_off b a x = grind (int_laws, sum-set_amount b a (get_amount b a -ℤ x))

pub sum-move : (b : Balances) (from to : ℕ) (x : ℤ) → sum (move b from to x) ≡ sum b
unfolding move
sum-move b from to x =
    rw (sum-put_on (take_off b from x) to x, sum-take_off b from x) (omega int_laws)

pub get-move :
    (b : Balances) (from to j : ℕ) (x : ℤ)
    → get_amount (move b from to x) j
      ≡ (get_amount b j -ℤ (if from == j then x else pos 0)) +ℤ (if to == j then x else pos 0)
unfolding move
get-move b from to j x = grind (
  int_laws,
  get-set_amount (take_off b from x) to j (get_amount (take_off b from x) to +ℤ x),
  get-set_amount b from j (get_amount b from -ℤ x),
  get-set_amount b from to (get_amount b from -ℤ x),
)

pub put_on-AllNonneg :
    (b : Balances) (a : ℕ) (x : ℤ) → pos 0 ≤ℤ x → AllNonneg b → AllNonneg (put_on b a x)
put_on-AllNonneg b a x hx h =
    set_amount-AllNonneg b a (get_amount b a +ℤ x) (grind (int_laws, get_amount-nonneg b a h)) h

pub take_off-AllNonneg :
    (b : Balances) (a : ℕ) (x : ℤ) → x ≤ℤ get_amount b a → AllNonneg b → AllNonneg (take_off b a x)
take_off-AllNonneg b a x hx h = set_amount-AllNonneg b a (get_amount b a -ℤ x) (grind int_laws) h

pub move-AllNonneg :
    (b : Balances) (from to : ℕ) (x : ℤ)
    → pos 0 ≤ℤ x
    → x ≤ℤ get_amount b from
    → AllNonneg b
    → AllNonneg (move b from to x)
unfolding move
move-AllNonneg b from to x hx cover h =
    put_on-AllNonneg (take_off b from x) to x hx (take_off-AllNonneg b from x cover h)
