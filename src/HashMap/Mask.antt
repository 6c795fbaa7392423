-- ===== src/HashMap/Mask.antt =====
-- The number of slots of a map, and the law behind `hash & capacity`.
use jml.Base.{ℕ, ◌-◌, ◌%◌, ◌^◌, ◌<◌, ◌≡◌, arith, bit_and, bit_and-mask}

-- The number of slots of a map: none, or a power of two.
pub data IsSlots : ℕ → Type 0 where
  no_slots : IsSlots 0
  power : (n p : ℕ) → n ≡ 2 ^ p → IsSlots n

-- The mask law, in the form that the probes use.
pub IsSlots-mask : {n : ℕ} → IsSlots n → 0 < n → (x : ℕ) → bit_and x (n - 1) ≡ x % n
IsSlots-mask no_slots h x = absurd (omega arith)
IsSlots-mask (power n p e) h x = rw e (bit_and-mask p x)
