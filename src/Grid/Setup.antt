-- ===== src/Grid/Setup.antt =====
-- Output/SimulatedLED.c: setupNetwork.
use mathlib.Core.Option
use ledcontroller.Prelude.{ℕ, List, [], ◌∷◌, none, some}
use ledcontroller.Led.{CommError}
use ledcontroller.Network.{Network}
use ledcontroller.Output.{Setup}
use ledcontroller.Led

-- "10.42.0.10" and "255.255.255.0".
abbrev own_address : List ℕ
own_address = 49 ∷ 48 ∷ 46 ∷ 52 ∷ 50 ∷ 46 ∷ 48 ∷ 46 ∷ 49 ∷ 48 ∷ []

abbrev own_mask : List ℕ
own_mask = 50 ∷ 53 ∷ 53 ∷ 46 ∷ 50 ∷ 53 ∷ 53 ∷ 46 ∷ 50 ∷ 53 ∷ 53 ∷ 46 ∷ 48 ∷ []

-- "/tmp/led0.ctl" and "led0"
abbrev vde_path : List ℕ
vde_path =
    b'/' ∷ b't' ∷ b'm' ∷ b'p' ∷ b'/' ∷ b'l' ∷ b'e' ∷ b'd' ∷ b'0' ∷ b'.' ∷ b'c' ∷ b't' ∷ b'l' ∷ []

abbrev vde_name : List ℕ
vde_name = b'l' ∷ b'e' ∷ b'd' ∷ b'0' ∷ []

abbrev mac_addr : List ℕ
mac_addr = 0x02 ∷ 0x00 ∷ 0x11 ∷ 0x22 ∷ 0x33 ∷ 0x44 ∷ []

-- With the file's netMask, which starts as 0, as an argument. An address text that cannot be read
-- leaves its address.
pub setup_network : {W : Type 0} → Network W → ℕ → W → ℕ → Setup W
setup_network net net_mask w address =
    let address' = Option.get_or (net.string_to_ipv4 own_address) address in
    let mask = Option.get_or (net.string_to_ipv4 own_mask) net_mask in
    let (w', device) = net.vde_create w vde_path vde_name mac_addr in
    elim device [
      | none ↦ record { world = w'; address = address'; result = CommError.device_cannot_create }
      | some handle ↦ record {
        world = net.link_add w' handle address' mask;
        address = address';
        result = Led.CommError.success;
      }
    ]
