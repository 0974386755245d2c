-- ===== src/Selfupdate/Io.antt =====
-- A call that acts on the node. Each act of the operating system has an outcome of its own: it is done, it
-- reports an error and has changed nothing, or the host stops before it. What is done stays done.
pub mod Keeps
pub mod Leads
pub mod Facts
use nexa_panel.Prelude.{Bool, true, false, Option, none, some, List, [], ◌∷◌, Text, if◌then◌else◌}
use nexa_panel.Selfupdate.Host.{Host, Kept, empty_kept}
use nexa_panel.Prelude.{lookup, insert}

pub data Outcome : Type 0 where
  does fails stops : Outcome

pub data Ended (A : Type 0) : Type 0 where
  done : A → Ended A
  fault : Text → Ended A
  cut : Ended A

pub record World : Type 0 where
  pub host : Host
  pub outcomes : List Outcome

abbrev pub Io : Type 0 → Type 0
Io A = World → Ended A × World

module _ {A : Type 0} where
  unfoldable pub pure : A → Io A
  pure a w = (done a, w)

  unfoldable pub raise : Text → Io A
  raise e w = (fault e, w)

  unfoldable pub gets : (Host → A) → Io A
  gets f w = (done (f w.host), w)

  unfoldable pub or_raise : Option A → Text → Io A
  or_raise none e = raise e
  or_raise (some a) _ = pure a

abbrev pub continue : {A B : Type 0} → (A → Io B) → Ended A × World → Ended B × World
continue f (done a, w) = f a w
continue f (fault e, w) = (fault e, w)
continue f (cut, w) = (cut, w)

infixl 5 ◌>>=◌ ◌>>◌
unfoldable pub ◌>>=◌ : {A B : Type 0} → Io A → (A → Io B) → Io B
◌>>=◌ m f w = continue f (m w)

unfoldable pub ◌>>◌ : {A B : Type 0} → Io A → Io B → Io B
m >> k = m >>= λ _. k

-- `if err := m(); err != nil`: the error as a value
abbrev pub attempted : {A : Type 0} → Ended A × World → Ended (Option Text) × World
attempted (done _, w) = (done none, w)
attempted (fault e, w) = (done (some e), w)
attempted (cut, w) = (cut, w)

unfoldable pub try : {A : Type 0} → Io A → Io (Option Text)
try m w = attempted (m w)

-- `if err := m(); err != nil { return ..., handler(err) }`
abbrev pub recovered : {A : Type 0} → (Text → Io A) → Ended A × World → Ended A × World
recovered f (done a, w) = (done a, w)
recovered f (fault e, w) = f e w
recovered f (cut, w) = (cut, w)

unfoldable pub rescue : {A : Type 0} → Io A → (Text → Io A) → Io A
rescue m f w = recovered f (m w)

-- One act of the operating system, with what it changes and the error that it is reported as. When no
-- more outcomes are given, acts are done.
abbrev pub settle : Text → (Host → Host) → List Outcome → World → Ended (Unit {0}) × World
settle e f [] w = (done tt, record w { host = f w.host })
settle e f (does ∷ os) w = (done tt, record { host = f w.host; outcomes = os })
settle e f (fails ∷ os) w = (fault e, record w { outcomes = os })
settle e f (stops ∷ os) w = (cut, record w { outcomes = os })

unfoldable pub act : Text → (Host → Host) → Io (Unit {0})
act e f w = settle e f w.outcomes w

-- An act that changes nothing that the model keeps.
unfoldable pub step : Text → Io (Unit {0})
step e = act e (λ h. h)

unfoldable pub raise_if : Bool → Text → Io (Unit {0})
raise_if c e = if c then raise e else pure tt

unfoldable pub when : Bool → Io (Unit {0}) → Io (Unit {0})
when c m = if c then m else pure tt

-- The error is dropped: `_ = m()`.
unfoldable pub ignore : {A : Type 0} → Io A → Io (Unit {0})
ignore m = try m >> pure tt

abbrev pub kept_at : Option Kept → Kept
kept_at none = empty_kept
kept_at (some kept) = kept

-- The directory of a transaction, empty before it is made, and a change of it.
abbrev pub kept_of : Text → Host → Kept
kept_of id h = kept_at (lookup id h.kept)

abbrev pub change_kept : Text → (Kept → Kept) → Host → Host
change_kept id f h = record h { kept = insert id (f (kept_of id h)) h.kept }
