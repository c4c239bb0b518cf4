-- ===== src/Client/Preserves.antt =====
-- What a function on the shared state preserves, and how this follows the binds of the monad.
use simpletorrent_nju.Base.{◌≡◌, subst, Bool, true, false, if◌then◌else◌}
use simpletorrent_nju.Client.{Client, Outcome, ok, fault, M, get, pure, ◌>>=◌, when}
use simpletorrent_nju.Client.Frame.{IsAlike, After, comes_back, faults, Anything, Keeps}

-- Where a call comes back, `P` holds of the state.
pub data Leaves {A : Type 0} (P : Client → Type 0) : Outcome A → Type 0 where
  leaves : {a : A} {c : Client} → P c → Leaves P (ok a c)
  no_return : Leaves P fault

pub record Preserves {A : Type 0} (P : Client → Type 0) (m : M A) : Type 0 where
  pub run : (c : Client) → P c → Leaves P (m c)

client_of : {A : Type 0} {a b : A} {c c' : Client} → ok a c ≡ ok b c' → c ≡ c'
client_of e = cc

-- the state that a call comes back with
pub left_with :
    {A : Type 0} (P : Client → Type 0) {o : Outcome A} {a : A} {c : Client}
    → Leaves P o
    → o ≡ ok a c
    → P c
left_with P (leaves h) e = subst P (client_of e) h
left_with P no_return e = cc

module _ {A : Type 0} {P : Client → Type 0} where
  pub Preserves-pure : (a : A) → Preserves P (pure a)
  Preserves-pure a = record { run = λ c h. leaves h }

  pub Preserves-if :
      (b : Bool) {m n : M A} → Preserves P m → Preserves P n → Preserves P (if b then m else n)
  Preserves-if true h k = h
  Preserves-if false h k = k

  pub Preserves-get :
      {f : Client → M A} → ((c : Client) → Preserves P (f c)) → Preserves P (get >>= f)
  Preserves-get h = record { run = λ c k. (h c).run c k }

  then_go :
      {B : Type 0} {Q : Client → Type 0} {f : B → M A} (o : Outcome B)
      → Leaves Q o
      → ((b : B) (c : Client) → Q c → Leaves P (f b c))
      → Leaves P (elim o [ ok b c ↦ f b c | fault ↦ fault ])
  then_go (ok b c) (leaves h) k = k b c h
  then_go fault no_return k = no_return

  -- from one predicate to another
  pub Leaves-bind :
      {B : Type 0} {Q : Client → Type 0} (m : M B) {f : B → M A} {c : Client}
      → Leaves Q (m c)
      → ((b : B) (c' : Client) → Q c' → Leaves P (f b c'))
      → Leaves P ((m >>= f) c)
  Leaves-bind m {f} {c} h k = then_go (m c) h k

  then_kept :
      {B : Type 0} {Q : B → Type 0} {f : B → M A} {c : Client} (o : Outcome B)
      → After (Unit {0}) Q c o
      → ((b : B) (c' : Client) → IsAlike c c' → Q b → Leaves P (f b c'))
      → Leaves P (elim o [ ok b c' ↦ f b c' | fault ↦ fault ])
  then_kept (ok b c') (comes_back a q) k = k b c' a q
  then_kept fault (faults _) k = no_return

  -- behind a call that keeps the frame
  pub Leaves-After :
      {B : Type 0} {Q : B → Type 0} (m : M B) {f : B → M A} {c : Client}
      → After (Unit {0}) Q c (m c)
      → ((b : B) (c' : Client) → IsAlike c c' → Q b → Leaves P (f b c'))
      → Leaves P ((m >>= f) c)
  Leaves-After m {f} {c} h k = then_kept (m c) h k

  pub Preserves-bind :
      {B : Type 0} {m : M B} {f : B → M A}
      → Preserves P m
      → ((b : B) → Preserves P (f b))
      → Preserves P (m >>= f)
  Preserves-bind {B} {m} h k = record {
    run = λ c r. then_go (m c) (h.run c r) λ b c' q. (k b).run c' q;
  }

  kept_alike :
      {c : Client} {o : Outcome A}
      → ((c c' : Client) → IsAlike c c' → P c → P c')
      → P c
      → After (Unit {0}) Anything c o
      → Leaves P o
  kept_alike {c} k h (comes_back {a} {c'} s _) = leaves (k c c' s h)
  kept_alike k h (faults _) = no_return

  -- what holds of states alike is preserved by a function that keeps the frame
  pub Preserves-Keeps :
      {m : M A} → ((c c' : Client) → IsAlike c c' → P c → P c') → Keeps (Unit {0}) m → Preserves P m
  Preserves-Keeps k h = record { run = λ c r. kept_alike k r (h.run c) }

pub Preserves-when :
    {P : Client → Type 0} (b : Bool) {m : M (Unit {0})} → Preserves P m → Preserves P (when b m)
Preserves-when true h = h
Preserves-when false h = Preserves-pure tt
