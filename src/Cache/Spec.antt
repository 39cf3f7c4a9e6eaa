-- ===== src/Cache/Spec.antt =====
-- What one shard of the cache promises: its entries, most recently used first.
use gozim.Base.{ℕ, ◌+◌, ◌-◌, List, [], ◌∷◌, leb, ◌==◌, if◌then◌else◌, Option, none, some}

pub record Entry (V : Type 0) : Type 0 where
  pub key : ℕ
  pub value : V
  pub size : ℕ

-- `lost` counts what `remove` took out without subtracting it.
pub record Lru (V : Type 0) : Type 0 where
  pub entries : List (Entry V)
  pub lost : ℕ
  pub bound : ℕ

module _ {V : Type 0} where
  unfoldable pub assoc : ℕ → List (Entry V) → Option (Entry V)
  assoc key [] = none
  assoc key (e ∷ es) = if e.key == key then some e else assoc key es

  unfoldable pub erase : ℕ → List (Entry V) → List (Entry V)
  erase key [] = []
  erase key (e ∷ es) = if e.key == key then es else e ∷ erase key es

  unfoldable pub weight : List (Entry V) → ℕ
  weight [] = 0
  weight (e ∷ es) = e.size + weight es

  -- The longest front part that weighs no more than the bound.
  unfoldable pub fitting : ℕ → List (Entry V) → List (Entry V)
  fitting bound [] = []
  fitting bound (e ∷ es) = if leb e.size bound then e ∷ fitting (bound - e.size) es else []

  -- The entries that stay.
  unfoldable pub kept : ℕ → ℕ → List (Entry V) → List (Entry V)
  unfolding fitting
  kept bound lost es = if leb lost bound then fitting (bound - lost) es else []

  -- A hit becomes the most recent entry.
  unfoldable pub get : Lru V → ℕ → Lru V × Option V
  unfolding assoc erase
  get l key = elim (assoc key l.entries) [
    | none ↦ (l, none)
    | some e ↦ (record l { entries = e ∷ erase key l.entries }, some e.value)
  ]

  -- The entry becomes the most recent one, and the oldest ones go until the rest fits.
  unfoldable pub put : Lru V → ℕ → V → ℕ → Lru V
  unfolding kept erase
  put l key value size = record l {
    entries =
        kept l.bound l.lost
          (record { key = key; value = value; size = size } ∷ erase key l.entries);
  }

  unfoldable pub remove : Lru V → ℕ → Lru V
  unfolding assoc erase
  remove l key = elim (assoc key l.entries) [
    | none ↦ l
    | some e ↦ record l { entries = erase key l.entries; lost = l.lost + e.size }
  ]

  unfoldable pub clear : Lru V → Lru V
  clear l = record l { entries = []; lost = 0 }
