-- ===== src/Base/Maps.antt =====
-- `std::unordered_map` as a function from keys to values. The hash of a key decides only where
-- the table keeps an entry, so that lookups and updates go by the keys' equality.
use mathlib.Core.Path.{◌≡◌, refl}
use mathlib.Core.Logic.{◌≢◌, ite, if_pos, if_neg}
use mathlib.Core.Option.{Option, none, some}

abbrev pub KeyMap : Type 0 → Type 0 → Type 0
KeyMap K V = K → Option V

module _ {K V : Type 0} (discrete : Discrete K) where
  unfoldable pub insert : K → V → KeyMap K V → KeyMap K V
  insert k v m j = ite (discrete k j) (some v) (m j)

  unfoldable pub erase : K → KeyMap K V → KeyMap K V
  erase k m j = ite (discrete k j) none (m j)

  pub find-insert_self : (k : K) (v : V) (m : KeyMap K V) → insert k v m k ≡ some v
  unfolding insert
  find-insert_self k v m = if_pos (discrete k k) refl _ _

  pub find-insert_ne : (k j : K) (v : V) (m : KeyMap K V) → k ≢ j → insert k v m j ≡ m j
  unfolding insert
  find-insert_ne k j v m h = if_neg (discrete k j) h _ _

  pub find-erase_self : (k : K) (m : KeyMap K V) → erase k m k ≡ none
  unfolding erase
  find-erase_self k m = if_pos (discrete k k) refl _ _

  pub find-erase_ne : (k j : K) (m : KeyMap K V) → k ≢ j → erase k m j ≡ m j
  unfolding erase
  find-erase_ne k j m h = if_neg (discrete k j) h _ _

-- `map[k]`, which starts a missing entry from the default.
abbrev pub find_or : {V : Type 0} → V → Option V → V
find_or d none = d
find_or d (some v) = v
