-- ===== src/Ledger/Histories.antt =====
-- Histories of a ledger: what a holder may rely on, whatever the events.
use principal.Base.{ℕ, ◌≡◌, ◌==◌, if◌then◌else◌, List, [], ◌∷◌}
use principal.Base.Int.{ℤ, pos, ◌+ℤ◌, ◌-ℤ◌, ◌≤ℤ◌, int_laws}
use principal.Ledger.Steps.{Ledger, Event, Step}

pub data Run : Ledger → List Event → Ledger → Type 0 where
  done : {l : Ledger} → Run l [] l
  next :
      {l m n : Ledger} (event : Event) (events : List Event)
      → Step l event m
      → Run m events n
      → Run l (event ∷ events) n

-- What one event adds to the supply, and what the account receives, pays and collects.
abbrev pub minted : Event → ℤ
minted (Event.issues to amount) = amount
minted (Event.retires from amount) = pos 0 -ℤ amount
minted _ = pos 0

abbrev pub received : ℕ → Event → ℤ
received a (Event.moves from to amount) = if to == a then amount else pos 0
received a (Event.issues to amount) = if to == a then amount else pos 0
received a _ = pos 0

abbrev pub paid : ℕ → Event → ℤ
paid a (Event.moves from to amount) = if from == a then amount else pos 0
paid a (Event.retires from amount) = if from == a then amount else pos 0
paid a _ = pos 0

abbrev pub collected : ℕ → Event → ℤ
collected a (Event.collects account amount) = if account == a then amount else pos 0
collected a _ = pos 0

unfoldable pub total : (Event → ℤ) → List Event → ℤ
total f [] = pos 0
total f (event ∷ events) = f event +ℤ total f events

step-supply :
    {l l' : Ledger} (event : Event) → Step l event l' → l'.supply ≡ l.supply +ℤ minted event
step-supply event (Step.stays b s c) = grind (int_laws, s)
step-supply event (Step.accrues b s c) = grind (int_laws, s)
step-supply event (Step.moves from to x p h b s c) = grind (int_laws, s)
step-supply event (Step.issues to x p b s c) = s
step-supply event (Step.retires from x p h b s c) = grind (int_laws, s)
step-supply event (Step.collects a x e b s c) = grind (int_laws, s)

pub Run-supply :
    {l l' : Ledger} (events : List Event)
    → Run l events l'
    → l'.supply ≡ l.supply +ℤ total minted events
unfolding total
Run-supply [] done = grind int_laws
Run-supply (event ∷ events) (Run.next e es s r) =
    grind (int_laws, step-supply event s, Run-supply events r)

step-balance :
    {l l' : Ledger} (a : ℕ) (event : Event)
    → Step l event l'
    → l'.balance a +ℤ paid a event ≡ l.balance a +ℤ received a event
step-balance a event (Step.stays b s c) = grind (int_laws, b a)
step-balance a event (Step.accrues b s c) = grind (int_laws, b a)
step-balance a event (Step.moves from to x p h b s c) = grind (int_laws, b a)
step-balance a event (Step.issues to x p b s c) = grind (int_laws, b a)
step-balance a event (Step.retires from x p h b s c) = grind (int_laws, b a)
step-balance a event (Step.collects k x e b s c) = grind (int_laws, b a)

chain : (x y z p q r t : ℤ) → y +ℤ p ≡ x +ℤ r → z +ℤ q ≡ y +ℤ t → z +ℤ (p +ℤ q) ≡ x +ℤ (r +ℤ t)
chain x y z p q r t g h = grind int_laws

chain_le : (x y z p q : ℤ) → x ≤ℤ y +ℤ p → y ≤ℤ z +ℤ q → x ≤ℤ z +ℤ (p +ℤ q)
chain_le x y z p q g h = omega int_laws

pub Run-balance :
    {l l' : Ledger} (a : ℕ) (events : List Event)
    → Run l events l'
    → l'.balance a +ℤ total (paid a) events ≡ l.balance a +ℤ total (received a) events
unfolding total
Run-balance a [] done = grind int_laws
Run-balance a (event ∷ events) (Run.next e es s r) =
    chain _ _ _ _ _ _ _ (step-balance a event s) (Run-balance a events r)

step-claim :
    {l l' : Ledger} (a : ℕ) (event : Event)
    → Step l event l'
    → l.claim a ≤ℤ l'.claim a +ℤ collected a event
step-claim a event (Step.stays b s c) = grind (int_laws, c a)
step-claim a event (Step.accrues b s c) = grind (int_laws, c a)
step-claim a event (Step.moves from to x p h b s c) = grind (int_laws, c a)
step-claim a event (Step.issues to x p b s c) = grind (int_laws, c a)
step-claim a event (Step.retires from x p h b s c) = grind (int_laws, c a)
step-claim a event (Step.collects k x e b s c) = grind (int_laws, c a)

-- Yield is never lost: what could be claimed is still there, or was collected.
pub Run-claim :
    {l l' : Ledger} (a : ℕ) (events : List Event)
    → Run l events l'
    → l.claim a ≤ℤ l'.claim a +ℤ total (collected a) events
unfolding total
Run-claim a [] done = grind int_laws
Run-claim a (event ∷ events) (Run.next e es s r) =
    chain_le _ _ _ _ _ (step-claim a event s) (Run-claim a events r)
