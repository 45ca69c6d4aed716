-- ===== src/Concurrency/Accounting.antt =====
-- app/core/concurrency.py under any history of calls: the counters against the leases handed out.
use fcam_gateway.Prelude.{
  ℕ, zero, suc, ◌+◌, ◌≤◌, ◌<◌, ◌≡◌, refl, true, false, Option, none, some, List, [], ◌∷◌, arith,
  ◌==◌, if◌then◌else◌, Bool-cases, inl, inr,
}
use fcam_gateway.Prelude.Dict.{empty}
use fcam_gateway.Concurrency.{States, Lease, current, try_acquire, release}

-- a manager with every lease that it has handed out, newest first
pub record System : Type 0 where
  pub states : States
  pub leases : List Lease

pub data Call : Type 0 where
  acquires : ℕ → ℕ → Call
  releases : ℕ → Call

-- the lease at a position is released in place
pub release_at : States → ℕ → List Lease → List Lease × States
release_at states i [] = ([], states)
release_at states zero (l ∷ ls) = let r = release states l in (r.0 ∷ ls, r.1)
release_at states (suc i) (l ∷ ls) = let r = release_at states i ls in (l ∷ r.0, r.1)

abbrev add_lease : Option Lease → List Lease → List Lease
add_lease none ls = ls
add_lease (some l) ls = l ∷ ls

pub step : System → Call → System
step s (acquires key maximum) =
    let r = try_acquire s.states key maximum in
    record { states = r.1; leases = add_lease r.0 s.leases }
step s (releases i) =
    let r = release_at s.states i s.leases in record { states = r.1; leases = r.0 }

pub run : System → List Call → System
run s [] = s
run s (c ∷ cs) = run (step s c) cs

abbrev pub init : System
init = record { states = empty; leases = [] }

-- a lease that still counts against a key
abbrev holds : ℕ → Lease → ℕ
holds key l =
    if l.released then 0 else elim l.target [ none ↦ 0 | some k ↦ if k == key then 1 else 0 ]

pub held : ℕ → List Lease → ℕ
held key [] = 0
held key (l ∷ ls) = holds key l + held key ls

release-held :
    (states : States) (key : ℕ) (l : Lease) (n : ℕ)
    → current states key ≡ holds key l + n
    → current (release states l).1 key ≡ holds key (release states l).0 + n
unfolding current release
release-held states key l n h = ground arith

release_at-held :
    (states : States) (i key : ℕ) (ls : List Lease) (n : ℕ)
    → current states key ≡ held key ls + n
    → current (release_at states i ls).1 key ≡ held key (release_at states i ls).0 + n
unfolding held release_at
release_at-held states i key [] n h = h
release_at-held states zero key (l ∷ ls) n h =
    omega (arith, release-held states key l (held key ls + n) (omega arith))
release_at-held states (suc i) key (l ∷ ls) n h =
    omega (arith, release_at-held states i key ls (holds key l + n) (omega arith))

acquire_held :
    (states : States) (k maximum key : ℕ) (ls : List Lease)
    → current states key ≡ held key ls
    → let r = try_acquire states k maximum in current r.1 key ≡ held key (add_lease r.0 ls)
unfolding held current try_acquire
acquire_held states k maximum key ls h = ground arith

-- each counter is the number of its leases that are not yet released
abbrev pub IsCounted : System → Type 0
IsCounted s = (key : ℕ) → current s.states key ≡ held key s.leases

step-IsCounted : (s : System) (c : Call) → IsCounted s → IsCounted (step s c)
unfolding step
step-IsCounted s (acquires k maximum) h key = acquire_held s.states k maximum key s.leases (h key)
step-IsCounted s (releases i) h key =
    omega (arith, release_at-held s.states i key s.leases 0 (omega (arith, h key)))

run-IsCounted : (s : System) (cs : List Call) → IsCounted s → IsCounted (run s cs)
unfolding run
run-IsCounted s [] h = h
run-IsCounted s (c ∷ cs) h = run-IsCounted (step s c) cs (step-IsCounted s c h)

-- After any calls, released twice or in any order, a key's counter is the number of its leases
-- that are held.
pub current-eq-held :
    (key : ℕ) (cs : List Call) → current (run init cs).states key ≡ held key (run init cs).leases
unfolding current held
current-eq-held key cs = run-IsCounted init cs (λ k. refl) key

-- no call for the key asks for more than `limit`
abbrev pub Limited : ℕ → ℕ → List Call → Type 0
Limited key limit [] = Unit
Limited key limit (acquires k maximum ∷ cs) =
    ((k == key) ≡ true → maximum ≤ limit) × Limited key limit cs
Limited key limit (releases i ∷ cs) = Limited key limit cs

release_le :
    (states : States) (l : Lease) (key : ℕ) → current (release states l).1 key ≤ current states key
unfolding current release
release_le states l key = ground arith

release_at_le :
    (states : States) (i : ℕ) (ls : List Lease) (key : ℕ)
    → current (release_at states i ls).1 key ≤ current states key
unfolding release_at
release_at_le states i [] key = omega arith
release_at_le states zero (l ∷ ls) key = release_le states l key
release_at_le states (suc i) (l ∷ ls) key = release_at_le states i ls key

acquire_le :
    (states : States) (k maximum key limit : ℕ)
    → ((k == key) ≡ true → maximum ≤ limit)
    → current states key ≤ limit
    → current (try_acquire states k maximum).1 key ≤ limit
unfolding current try_acquire
acquire_le states k maximum key limit m h = ground arith

run-le-limit :
    (s : System) (key limit : ℕ) (cs : List Call)
    → Limited key limit cs
    → current s.states key ≤ limit
    → current (run s cs).states key ≤ limit
unfolding run step
run-le-limit s key limit [] l h = h
run-le-limit s key limit (acquires k maximum ∷ cs) l h =
    run-le-limit (step s (acquires k maximum)) key limit cs l.1
      (acquire_le s.states k maximum key limit l.0 h)
run-le-limit s key limit (releases i ∷ cs) l h =
    run-le-limit (step s (releases i)) key limit cs l
      (omega (arith, release_at_le s.states i s.leases key))

-- The leases of one key that are held together never outnumber the largest maximum asked for it.
pub held-le-limit :
    (key limit : ℕ) (cs : List Call) → Limited key limit cs → held key (run init cs).leases ≤ limit
held-le-limit key limit cs l = omega (
  arith,
  current-eq-held key cs,
  run-le-limit init key limit cs l (unfold current in omega arith),
)

-- Below its positive maximum a key is granted a lease, and at or above it the call is refused and the
-- counters stay as they are.
pub try_acquire_exact :
    (states : States) (key maximum : ℕ)
    → 0 < maximum
    → (current states key < maximum
        → (try_acquire states key maximum).0
          ≡ some (record { target = some key; released = false }))
      × (maximum ≤ current states key
          → ((try_acquire states key maximum).0 ≡ none)
            × ((k : ℕ) → current (try_acquire states key maximum).1 k ≡ current states k))
unfolding current try_acquire
try_acquire_exact states key maximum p = (λ h. ground arith, λ h. (ground arith, λ k. ground arith))

released_once :
    (states : States) (l : Lease)
    → release (release states l).1 (release states l).0 ≡ release states l
unfolding release
released_once states l = elim (Bool-cases l.released) [ inl e ↦ rw e | inr e ↦ rw e ]

-- what a grant or a refusal keeps
abbrev pub Restores : States → Option Lease × States → Type 0
Restores states t =
    (k : ℕ)
    → ((lease : Lease) → t.0 ≡ some lease → current (release t.1 lease).1 k ≡ current states k)
      × (t.0 ≡ none → current t.1 k ≡ current states k)

-- A granted lease, released, gives the counters back as they were, and a refusal does not touch them.
pub acquire-release :
    (states : States) (key maximum k : ℕ)
    → ((lease : Lease)
        → (try_acquire states key maximum).0 ≡ some lease
        → current (release (try_acquire states key maximum).1 lease).1 k ≡ current states k)
      × ((try_acquire states key maximum).0 ≡ none
          → current (try_acquire states key maximum).1 k ≡ current states k)
unfolding current try_acquire release
acquire-release states key maximum k = (λ lease h. ground arith, λ h. ground arith)
