-- ===== src/Common/Go.antt =====
-- The parts of Go that the sources rely on: panics, errors, slices with a capacity, `copy`,
-- and `bytes.Buffer`.
use wall_era.Common.Tests.{leb, ◌==◌, if◌then◌else◌}
use wall_era.Common.Lists.{length, get_elem?, take, drop, replicate}
use Prim.Native.Nat.{ℕ, ◌+◌, ◌-◌, ◌≤◌, ◌<◌}
use native.Mathlib.Omega.{arith}
use mathlib.Core.Path.{◌≡◌, refl}
use mathlib.Core.Logic.{◌⊎◌, inl, inr}
use mathlib.Core.Bool.{◌&&◌}
use mathlib.Core.Option.{Option, none, some}
use mathlib.Core.List.{List, [], ◌++◌}

-- A run of Go code: it returns a value or it panics.
pub data Outcome {ℓ} (A : Type ℓ) : Type ℓ where
  returns : A → Outcome A
  panics : Outcome A

infixl 5 ◌>>=◌
abbrev pub ◌>>=◌ {ℓ κ} : {A : Type ℓ} {B : Type κ} → Outcome A → (A → Outcome B) → Outcome B
returns a >>= f = f a
panics >>= f = panics

-- A pair of a value and an error of which one is set.
pub data Result {ℓ κ} (E : Type ℓ) (A : Type κ) : Type (ℓ ⊔ κ) where
  ok : A → Result E A
  err : E → Result E A

pub Result-cases {ℓ κ} :
    {E : Type ℓ} {A : Type κ} (r : Result E A) → ((a : A) × (r ≡ ok a)) ⊎ ((e : E) × (r ≡ err e))
Result-cases (ok a) = inl (a, refl)
Result-cases (err e) = inr (e, refl)

pub Outcome-cases {ℓ} : {A : Type ℓ} (o : Outcome A) → ((a : A) × (o ≡ returns a)) ⊎ (o ≡ panics)
Outcome-cases (returns a) = inl (a, refl)
Outcome-cases panics = inr refl

-- A byte slice: the elements up to its length, and those behind them up to its capacity.
pub record Slice : Type 0 where
  pub elems : List ℕ
  pub beyond : List ℕ

-- A slice with no capacity to spare.
abbrev pub exact : List ℕ → Slice
exact xs = record { elems = xs; beyond = [] }

abbrev pub len : Slice → ℕ
len s = length s.elems

abbrev pub from_option {ℓ} : {A : Type ℓ} → Option A → Outcome A
from_option none = panics
from_option (some a) = returns a

-- `s[i]` panics when `i` is not below the length.
abbrev pub index : Slice → ℕ → Outcome ℕ
index s i = from_option (get_elem? s.elems i)

-- `s[lo:hi]` may reach past the length up to the capacity, and panics beyond that.
unfoldable pub slice : Slice → ℕ → ℕ → Outcome Slice
slice s lo hi =
    if leb lo hi && leb hi (length (s.elems ++ s.beyond))
    then returns (record {
      elems = take (hi - lo) (drop lo (s.elems ++ s.beyond));
      beyond = drop hi (s.elems ++ s.beyond);
    })
    else panics

-- `s[lo:]` is `s[lo:len(s)]`.
unfoldable pub slice_from : Slice → ℕ → Outcome Slice
unfolding slice
slice_from s lo = slice s lo (len s)

-- `copy(dst[:], src)` into an array that holds `dst`.
abbrev pub copy : List ℕ → List ℕ → List ℕ
copy dst src = take (length dst) src ++ drop (length src) dst

-- A `bytes.Buffer` that is only written and truncated: its contents and the rest of its
-- backing array.
abbrev pub Buffer : Type 0
Buffer = Slice

abbrev pub empty_buffer : Buffer
empty_buffer = exact []

-- `grow n` is the spare capacity that the allocator leaves behind `n` bytes when a backing array
-- is replaced by a larger one. The first array of a buffer has 64 bytes if they are enough.
module _ (grow : ℕ → ℕ) where
  pub fresh_spare : Buffer → List ℕ → ℕ
  fresh_spare b p =
      if (length b.elems + length b.beyond == 0) && leb (length p) 64
      then 64 - length p
      else grow (length b.elems + length p)

  unfoldable pub write : Buffer → List ℕ → Buffer
  write b p =
      if leb (length p) (length b.beyond)
      then record { elems = b.elems ++ p; beyond = drop (length p) b.beyond }
      else record { elems = b.elems ++ p; beyond = replicate (fresh_spare b p) 0 }

-- `Truncate(n)` keeps the backing array; the callers have `n ≤ Len()`, where it does not panic.
unfoldable pub truncate : Buffer → ℕ → Buffer
truncate b n = record { elems = take n b.elems; beyond = drop n b.elems ++ b.beyond }

-- All the bytes that a slice expression can reach.
abbrev pub backing : Slice → List ℕ
backing s = s.elems ++ s.beyond

pub slice-panics : (s : Slice) (lo hi : ℕ) → length (backing s) < hi → slice s lo hi ≡ panics
unfolding slice
slice-panics s lo hi h = ground arith

pub slice-returns :
    (s : Slice) (lo hi : ℕ)
    → lo ≤ hi
    → hi ≤ length (backing s)
    → slice s lo hi
      ≡ returns
          (record { elems = take (hi - lo) (drop lo (backing s)); beyond = drop hi (backing s) })
unfolding slice
slice-returns s lo hi h k = ground arith
