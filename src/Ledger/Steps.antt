-- ===== src/Ledger/Steps.antt =====
-- The ledger of a yield token, and what may happen to it. PTToken is one that pays no yield.
use principal.Base.{arith, ℕ, ◌≡◌, refl, ◌==◌, if◌then◌else◌}
use principal.Base.Int.{ℤ, pos, ◌+ℤ◌, ◌-ℤ◌, ◌≤ℤ◌}
use principal.Base.Balances.{Balances, get_amount, get-set_amount, move, put_on, take_off}
use principal.Host.{Result, ok, err, commit}

pub record Ledger : Type 0 where
  pub balance : ℕ → ℤ
  pub supply : ℤ
  pub claim : ℕ → ℤ

pub data Event : Type 0 where
  stays accrues : Event
  moves : ℕ → ℕ → ℤ → Event
  issues retires collects : ℕ → ℤ → Event

abbrev pub Same : (ℕ → ℤ) → (ℕ → ℤ) → Type 0
Same f g = (a : ℕ) → f a ≡ g a

abbrev pub credit : (ℕ → ℤ) → ℕ → ℤ → ℕ → ℤ
credit f to amount a = if to == a then f a +ℤ amount else f a

abbrev pub debit : (ℕ → ℤ) → ℕ → ℤ → ℕ → ℤ
debit f from amount a = if from == a then f a -ℤ amount else f a

abbrev pub clear : (ℕ → ℤ) → ℕ → ℕ → ℤ
clear f account a = if account == a then pos 0 else f a

-- One event takes a ledger to the next. An amount that is moved, issued or retired is positive, and
-- what is taken is there; what is collected is the whole claim; yield only adds to claims.
pub data Step : Ledger → Event → Ledger → Type 0 where
  stays :
      {l l' : Ledger}
      → Same l'.balance l.balance
      → l'.supply ≡ l.supply
      → Same l'.claim l.claim
      → Step l Event.stays l'
  accrues :
      {l l' : Ledger}
      → Same l'.balance l.balance
      → l'.supply ≡ l.supply
      → ((a : ℕ) → l.claim a ≤ℤ l'.claim a)
      → Step l Event.accrues l'
  moves :
      {l l' : Ledger} (from to : ℕ) (amount : ℤ)
      → pos 1 ≤ℤ amount
      → amount ≤ℤ l.balance from
      → Same l'.balance (credit (debit l.balance from amount) to amount)
      → l'.supply ≡ l.supply
      → Same l'.claim l.claim
      → Step l (Event.moves from to amount) l'
  issues :
      {l l' : Ledger} (to : ℕ) (amount : ℤ)
      → pos 1 ≤ℤ amount
      → Same l'.balance (credit l.balance to amount)
      → l'.supply ≡ l.supply +ℤ amount
      → Same l'.claim l.claim
      → Step l (Event.issues to amount) l'
  retires :
      {l l' : Ledger} (from : ℕ) (amount : ℤ)
      → pos 1 ≤ℤ amount
      → amount ≤ℤ l.balance from
      → Same l'.balance (debit l.balance from amount)
      → l'.supply ≡ l.supply -ℤ amount
      → Same l'.claim l.claim
      → Step l (Event.retires from amount) l'
  collects :
      {l l' : Ledger} (account : ℕ) (amount : ℤ)
      → amount ≡ l.claim account
      → Same l'.balance l.balance
      → l'.supply ≡ l.supply
      → Same l'.claim (clear l.claim account)
      → Step l (Event.collects account amount) l'

-- What a call that means `event` has done: nothing if it panicked.
abbrev pub outcome : {S A : Type 0} → Result (A × S) → Event → Event
outcome (ok _) event = event
outcome (err _) event = Event.stays

same : (f : ℕ → ℤ) → Same f f
same f a = refl

-- The transaction of a call makes its step if the call, when it succeeds, makes its step.
pub outcome-Step :
    {S A : Type 0} (view : S → Ledger) (s : S) (r : Result (A × S)) (event : Event)
    → ((a : A) (s' : S) → r ≡ ok (a, s') → Step (view s) event (view s'))
    → Step (view s) (outcome r event) (view (commit s r))
outcome-Step view s (ok (a, s')) event h = h a s' refl
outcome-Step view s (err p) event h = stays (same (view s).balance) refl (same (view s).claim)

-- The writes of the contracts are those of the ledger.
pub get-put_on :
    (b : Balances) (to : ℕ) (amount : ℤ)
    → Same (get_amount (put_on b to amount)) (credit (get_amount b) to amount)
get-put_on b to amount a = grind (arith, get-set_amount)

pub get-take_off :
    (b : Balances) (from : ℕ) (amount : ℤ)
    → Same (get_amount (take_off b from amount)) (debit (get_amount b) from amount)
get-take_off b from amount a = grind (arith, get-set_amount)

pub move-credit :
    (b : Balances) (from to : ℕ) (amount : ℤ)
    → Same
        (get_amount (move b from to amount))
        (credit (debit (get_amount b) from amount) to amount)
unfolding move
move-credit b from to amount a =
    ground (arith, get-put_on (take_off b from amount) to amount a, get-take_off b from amount a)
