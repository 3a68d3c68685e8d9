-- ===== src/Websocket/Clock.antt =====
-- Fallible steps that take time: the time at which a step is over, and its result or its error. Times
-- are milliseconds.
use wallet_daemon.Base.{ℕ, ◌≤◌, ◌≡◌, refl, Text, Result, ok, err, arith}

abbrev pub Timed {ℓ} : Type ℓ → Type ℓ
Timed A = ℕ × Result Text A

-- What is started at a time.
abbrev pub Step {ℓ} : Type ℓ → Type ℓ
Step A = ℕ → Timed A

abbrev pub continue {ℓ κ} : {A : Type ℓ} {B : Type κ} → Timed A → (A → Step B) → Timed B
continue (t, ok a) f = f a t
continue (t, err e) f = (t, err e)

infixl 5 ◌>>=◌
abbrev pub ◌>>=◌ {ℓ κ} : {A : Type ℓ} {B : Type κ} → Step A → (A → Step B) → Step B
◌>>=◌ m f start = continue (m start) f

abbrev pub return {ℓ} : {A : Type ℓ} → A → Step A
return a start = (start, ok a)

-- A computation that takes no time.
abbrev pub lift {ℓ} : {A : Type ℓ} → Result Text A → Step A
lift r start = (start, r)

-- The step ends no earlier than it starts.
abbrev pub MovesOn {ℓ} : {A : Type ℓ} → Step A → Type 0
MovesOn m = (start : ℕ) → start ≤ (m start).0

pub continue_later {ℓ κ} :
    {A : Type ℓ} {B : Type κ} (start : ℕ) (r : Timed A) (f : A → Step B)
    → start ≤ r.0
    → ((a : A) → MovesOn (f a))
    → start ≤ (continue r f).0
continue_later start (t, ok a) f p q = omega (arith, q a t)
continue_later start (t, err e) f p q = p

-- A chain succeeds when its first step does, and then the rest.
pub continue_ok {ℓ κ} :
    {A : Type ℓ} {B : Type κ} (r : Timed A) (f : A → Step B) (t : ℕ) (b : B)
    → continue r f ≡ (t, ok b)
    → (u : ℕ) × (a : A) × (r ≡ (u, ok a)) × (f a u ≡ (t, ok b))
continue_ok (u, ok a) f t b e = (u, a, refl, e)
continue_ok (u, err x) f t b e = absurd (ground (arith, e))
