-- ===== src/Led.antt =====
-- MainLib/include/LedRGB.h and Byte.h: the data that every part exchanges. A Byte is a number
-- below 256, an unsigned short one below 65536.
use ledcontroller.Prelude.{ℕ, ◌<◌, List, Option}

pub record Rgb : Type 0 where
  pub red : ℕ
  pub green : ℕ
  pub blue : ℕ

pub record Address : Type 0 where
  pub row : ℕ
  pub column : ℕ

pub record AddressableLed : Type 0 where
  pub address : Address
  pub led_value : Rgb

-- An entry of an array of pointers: never written, NULL, or a pointer to a block of its own, with
-- what the block holds.
pub data Cell (A : Type 0) : Type 0 where
  unset null : Cell A
  holds : A → Cell A

-- `led_to_change` is NULL or an array.
pub record LedSequence : Type 0 where
  pub delay : ℕ
  pub sequence_length : ℕ
  pub led_to_change : Option (List (Cell AddressableLed))

-- The numbers that C gives the constants of E_CommMessage.
abbrev pub led_size : ℕ
led_size = 0x53495A45

abbrev pub led_reset : ℕ
led_reset = 0x52534554

abbrev pub led_set : ℕ
led_set = 0x534C4544

abbrev pub led_update : ℕ
led_update = 0x55504454

-- E_CommError: the codes that the programs exit with.
pub data CommError : Type 0 where
  success device_cannot_create socket_cannot_open socket_cannot_bind socket_cannot_listen
        socket_cannot_connect socket_error socket_error_write socket_error_read :
      CommError

abbrev pub IsRgb : Rgb → Type 0
IsRgb c = (c.red < 256) × (c.green < 256) × (c.blue < 256)

abbrev pub black : Rgb
black = record { red = 0; green = 0; blue = 0 }
