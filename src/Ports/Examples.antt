-- ===== src/Ports/Examples.antt =====
-- The theorems on port files at a concrete file.
use trinetra.Prelude.{Elem, ℕ, ◌≡◌, refl, ◌↔◌, List, [], ◌∷◌}
use trinetra.Ports.File.{read_ports}
use trinetra.Ports.Sorted.{StrictlyAscending}
use trinetra.Ports.Numbers.{Names}
use trinetra.Ports.Read.{read_ports-Names, read_ports-StrictlyAscending}

-- Two lines, 80 and 22, then 80 once more, and one that is out of range.
abbrev port_file : List ℕ
port_file =
    b'8' ∷ b'0' ∷ b'\n' ∷ b' ' ∷ b'2' ∷ b'2' ∷ b'\n' ∷ b'8' ∷ b'0' ∷ b'\n' ∷ b'7' ∷ b'0' ∷ b'0'
    ∷ b'0' ∷ b'0' ∷ []

two_ports : read_ports port_file ≡ 22 ∷ 80 ∷ []
unfolding read_ports
two_ports = refl

read_ports-Names_example : Elem 22 (read_ports port_file) ↔ Names 22 port_file
read_ports-Names_example = read_ports-Names port_file 22

read_ports-StrictlyAscending_example : StrictlyAscending (read_ports port_file)
read_ports-StrictlyAscending_example = read_ports-StrictlyAscending port_file
