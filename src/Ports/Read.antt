-- ===== src/Ports/Read.antt =====
-- What `read_ports_from_file` of utils.cpp returns.
use trinetra.Prelude.{Elem, ℕ, ◌↔◌, List, length, arith}
use trinetra.Ports.File.{sort, lines_loop, read_ports}
use trinetra.Ports.Sorted.{
  StrictlyAscending, sort-Ascending, unique-StrictlyAscending, sort-Elem, unique-Elem,
}
use trinetra.Ports.Numbers.{Names, lines_loop-Elem}

-- A number is among the ports read from a file exactly if a line of the file names it: behind
-- blanks, the digits in front of the line write it, and it is from 1 to 65535.
pub read_ports-Names : (bytes : List ℕ) (n : ℕ) → Elem n (read_ports bytes) ↔ Names n bytes
unfolding read_ports
read_ports-Names bytes n =
    let raw = lines_loop (length bytes) bytes in
    let once = unique-Elem n (sort raw) in
    let sorted = sort-Elem n raw in
    let read = lines_loop-Elem n (length bytes) bytes (omega arith) in
    ((λ h. read.0 (sorted.0 (once.0 h))), (λ h. once.1 (sorted.1 (read.1 h))))

-- The ports read from a file are in strictly ascending order, so that none is there twice.
pub read_ports-StrictlyAscending : (bytes : List ℕ) → StrictlyAscending (read_ports bytes)
unfolding read_ports
read_ports-StrictlyAscending bytes =
    unique-StrictlyAscending (sort (lines_loop (length bytes) bytes))
      (sort-Ascending (lines_loop (length bytes) bytes))
