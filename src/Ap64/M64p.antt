-- ===== src/Ap64/M64p.antt =====
-- The constants and types of crates/ap64-cart/src/m64p.rs.
pub mod Msg
pub mod Request
pub mod Reply
mod Examples
use Prim.Native.Nat.{bit_and}
use multi.Common.{ℕ, List, [], ◌∷◌, Option, none, some, Bool, not, ◌==◌}

-- `M64P`
abbrev pub magic : List ℕ
magic = 0x4D ∷ 0x36 ∷ 0x34 ∷ 0x50 ∷ []

abbrev pub max_regions : ℕ
max_regions = 32

abbrev pub max_region_bytes : ℕ
max_region_bytes = 4096

abbrev pub max_total_bytes : ℕ
max_total_bytes = 7936

abbrev pub watch_max_len : ℕ
watch_max_len = 8

abbrev pub watch_max_values : ℕ
watch_max_values = 8

abbrev pub flag_cart_rom : ℕ
flag_cart_rom = 0x02

abbrev pub flag_watch : ℕ
flag_watch = 0x04

-- `flags & flag != 0`
abbrev pub has_flag : ℕ → ℕ → Bool
has_flag flags flag = not (bit_and flags flag == 0)

pub record Region : Type 0 where
  pub addr : ℕ
  pub len : ℕ

pub record Slot : Type 0 where
  pub addr : ℕ
  pub len : ℕ
  pub place : ℕ
  pub values : List ℕ

pub record Event : Type 0 where
  pub slot : ℕ
  pub bytes : List ℕ

pub record HelloAck : Type 0 where
  pub proto : ℕ
  pub agent_ver : ℕ
  pub rdram_bytes : ℕ
  pub flags : ℕ
  pub rom_bytes : Option ℕ
  pub watch_slots : Option ℕ

pub record PeekV : Type 0 where
  pub rid : ℕ
  pub regions : List (List ℕ)
  pub events : List Event
  pub dropped : ℕ

pub data Response : Type 0 where
  hello_ack : HelloAck → Response
  peek_v : PeekV → Response
  peek_rom : ℕ → List (List ℕ) → Response
  poke_ack watch_ack refusal : ℕ → ℕ → Response

pub data Error : Type 0 where
  not_m64p truncated : Error
  refused : ℕ → ℕ → Error
  unknown_msg echoed_request : ℕ → Error
  too_many_regions region_too_large total_too_large : ℕ → Error
