-- ===== src/Service/Window/Tests.antt =====
-- The theorems on windows, applied to four bytes of a device.
use apfs_for_windows.Common.{
  Text, [], ap, arith, drop, leb, length, length-take, some, some-eq, take, ◌∷◌,
}
use apfs_for_windows.Service.Window.{
  Base, IsBase, WindowDevice, IsWithin, Covered, Call, read_data, run, read_data_lem, run-IsWithin,
}

abbrev six_bytes : Text
six_bytes = 1 ∷ 2 ∷ 3 ∷ 4 ∷ 5 ∷ 6 ∷ []

abbrev base : Base
base = record { seek = λ p. leb p 6; read = λ p n. some (take n (drop p six_bytes)) }

base-IsBase : IsBase base
base-IsBase = record {
  read_le = λ p n {bytes} e. omega (arith, length-take n (drop p six_bytes), ap length (some-eq e));
}

abbrev window : WindowDevice
window = record { offset = 2; size = 3; position = 1 }

window-IsWithin : IsWithin window
window-IsWithin = record { ends = omega arith; inside = omega arith }

read_data_lem_example :
    Covered base 9 window (read_data base 9 window) × IsWithin (read_data base 9 window).1
read_data_lem_example = read_data_lem base 9 window base-IsBase window-IsWithin

run-IsWithin_example :
    IsWithin (run base window (Call.reads 9 ∷ Call.seeks 7 ∷ Call.seeks 0 ∷ Call.reads 2 ∷ []))
run-IsWithin_example =
    run-IsWithin base window (Call.reads 9 ∷ Call.seeks 7 ∷ Call.seeks 0 ∷ Call.reads 2 ∷ [])
      base-IsBase window-IsWithin
