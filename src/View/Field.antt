-- ===== src/View/Field.antt =====
-- lib/bgpview.h: the state of a field, masks of states; lib/bgpview.c: counters by state.
use Prim.Native.Nat.{bit_and}
use bgpview.Base.{ℕ, ◌+◌, ◌-◌, ◌%◌, ◌≡◌, refl, Bool, true, false, not, ◌==◌, if◌then◌else◌}

-- bgpview_field_state_t
pub data FieldState : Type 0 where
  invalid active inactive : FieldState

abbrev pub state_code : FieldState → ℕ
state_code invalid = 0x0
state_code active = 0x1
state_code inactive = 0x2

abbrev pub field_active : ℕ
field_active = 0x1

abbrev pub field_inactive : ℕ
field_inactive = 0x2

-- BGPVIEW_FIELD_ACTIVE | BGPVIEW_FIELD_INACTIVE
abbrev pub all_valid : ℕ
all_valid = 0x3

-- `mask & state`, as a test
unfoldable pub matches : ℕ → FieldState → Bool
matches mask s = not (bit_and mask (state_code s) == 0)

abbrev pub is_state : FieldState → FieldState → Bool
is_state active active = true
is_state inactive inactive = true
is_state invalid invalid = true
is_state _ _ = false

-- The widths of the counters: uint16_t peers_cnt, uint32_t for all the others.
abbrev pub u16 : ℕ
u16 = 65536

abbrev pub u32 : ℕ
u32 = 4294967296

-- A counter array `cnt[BGPVIEW_FIELD_ALL_VALID]`; its element of index 0 is never used.
pub record Counts : Type 0 where
  pub active : ℕ
  pub inactive : ℕ

abbrev pub no_counts : Counts
no_counts = record { active = 0; inactive = 0 }

-- `c++` and `c--` of an unsigned counter with `w` values
abbrev pub increment : ℕ → ℕ → ℕ
increment w c = (c + 1) % w

abbrev pub decrement : ℕ → ℕ → ℕ
decrement w c = (c + (w - 1)) % w

-- cnt[BGPVIEW_FIELD_INACTIVE]++ and --
abbrev pub add_inactive : ℕ → Counts → Counts
add_inactive w c = record c { inactive = increment w c.inactive }

abbrev pub remove_inactive : ℕ → Counts → Counts
remove_inactive w c = record c { inactive = decrement w c.inactive }

-- ACTIVATE_FIELD_CNT and DEACTIVATE_FIELD_CNT
abbrev pub activate_field_cnt : ℕ → Counts → Counts
activate_field_cnt w c = record { active = increment w c.active; inactive = decrement w c.inactive }

abbrev pub deactivate_field_cnt : ℕ → Counts → Counts
deactivate_field_cnt w c = record {
  active = decrement w c.active;
  inactive = increment w c.inactive;
}

-- __cnt_by_mask; `w` is the width in which the sum is computed
unfoldable pub cnt_by_mask : ℕ → Counts → ℕ → ℕ
cnt_by_mask w c mask =
    if mask == field_active
    then c.active
    else if mask == field_inactive
    then c.inactive
    else (c.active + c.inactive) % w

-- A state is valid if it is not INVALID.
abbrev pub is_valid : FieldState → Bool
is_valid invalid = false
is_valid _ = true

-- 1 where the state is the one counted.
abbrev pub one_if_active : FieldState → ℕ
one_if_active active = 1
one_if_active _ = 0

abbrev pub one_if_inactive : FieldState → ℕ
one_if_inactive inactive = 1
one_if_inactive _ = 0

pub matches-all_valid : (s : FieldState) → matches all_valid s ≡ is_valid s
unfolding matches
matches-all_valid invalid = refl
matches-all_valid active = refl
matches-all_valid inactive = refl

pub matches-active : (s : FieldState) → matches field_active s ≡ is_state active s
unfolding matches
matches-active invalid = refl
matches-active active = refl
matches-active inactive = refl
