-- ===== src/CReader/Tests.antt =====
-- lib/c/reader.c with a buffer of four bytes: runs, and the theorems at them.
use c_cpp_sandbox.Common.{
  ◌≤◌, zero, suc, ℕ, ◌≡◌, refl, false, Option, none, some, List, [], ◌∷◌, ◌++◌, arith, take,
  characters,
}
use c_cpp_sandbox.CReader.{
  Source, Reader, reader_initialize, reader_read_bytes, returned, reader_read_until,
  reader_peek_for_empty_line,
}
use c_cpp_sandbox.CReader.Pending.{IsValid, pending}
use c_cpp_sandbox.CReader.Bytes.{Took, read_bytes-Took}
use c_cpp_sandbox.CReader.Forever.{read_bytes_forever}
use c_cpp_sandbox.CReader.Peek.{peek-Took}
use c_cpp_sandbox.CReader.Chunk.{read_chunk_non_blocking_fd, read_chunk_ends}
use c_cpp_sandbox.CReader.Line.{read_until-Took}

abbrev arriving : Source
arriving = record { chunks = characters "ab\ncd" ∷ characters "e" ∷ []; fails = false }

abbrev new : Reader
new = record {
  fd = arriving;
  buf = 0 ∷ 0 ∷ 0 ∷ 0 ∷ [];
  buf_size = 4;
  cursor = 0;
  bytes_in_buffer = 0;
}

-- The same, when the first four bytes have arrived.
abbrev begun : Reader
begun = record {
  fd = record { chunks = characters "d" ∷ characters "e" ∷ []; fails = false };
  buf = characters "ab\nc";
  buf_size = 4;
  cursor = 0;
  bytes_in_buffer = 4;
}

new-IsValid : IsValid new
new-IsValid = record {
  buffer = refl;
  some_room = omega arith;
  filled = omega arith;
  placed = omega arith;
  arriving = (omega arith, (omega arith, tt));
}

begun-IsValid : IsValid begun
begun-IsValid = record {
  buffer = refl;
  some_room = omega arith;
  filled = omega arith;
  placed = omega arith;
  arriving = (omega arith, (omega arith, tt));
}

abbrev text_of : Option (Option (List ℕ) × Reader) → Option (List ℕ)
text_of o = elim o [ none ↦ none | some p ↦ p.0 ]

read_five : text_of (reader_read_bytes 9 new 5) ≡ some (characters "ab\ncd" ++ (0 ∷ []))
unfolding reader_read_bytes
read_five = refl

starts_empty : pending (reader_initialize (0 ∷ 0 ∷ []) arriving 2) ≡ characters "ab\ncde"
unfolding reader_initialize
starts_empty = refl

read_bytes-Took_example :
    (r' : Reader) × (reader_read_bytes 7 new 5 ≡ some (some (take 5 (pending new) ++ (0 ∷ [])), r'))
    × Took 5 new r'
read_bytes-Took_example =
    read_bytes-Took 7 5 new new-IsValid (omega arith) (omega arith) (omega arith)

read_bytes_forever_example : reader_read_bytes 1000 new 7 ≡ none
read_bytes_forever_example =
    read_bytes_forever 1000 7 new new-IsValid refl (omega arith) (omega arith)

read_until-Took_example :
    (r' : Reader) × (reader_read_until 3 begun 10
      ≡ returned (some (characters "ab" ++ 10 ∷ 0 ∷ [])) r')
    × Took 3 begun r'
read_until-Took_example =
    read_until-Took 3 10 (characters "ab") (characters "c") begun begun-IsValid (omega arith) refl
      ((λ e. omega (arith, e)), ((λ e. omega (arith, e)), tt)) (omega arith)

abbrev blank : Reader
blank = record {
  fd = record { chunks = []; fails = false };
  buf = characters "\r\nxy";
  buf_size = 4;
  cursor = 0;
  bytes_in_buffer = 4;
}

blank-IsValid : IsValid blank
blank-IsValid = record {
  buffer = refl;
  some_room = omega arith;
  filled = omega arith;
  placed = omega arith;
  arriving = tt;
}

peek-Took_example :
    (r' : Reader) × (reader_peek_for_empty_line blank ≡ some (some 1, r')) × Took 2 blank r'
peek-Took_example = peek-Took blank 13 10 (characters "xy") blank-IsValid refl

-- One byte has arrived, and "bc" is on its way.
abbrev one : Reader
one = record {
  fd = record { chunks = characters "bc" ∷ characters "d" ∷ []; fails = false };
  buf = characters "azzz";
  buf_size = 4;
  cursor = 0;
  bytes_in_buffer = 1;
}

-- "ab" comes at once and "cde" in the next turn.
abbrev two_reads : ℕ → List ℕ
two_reads zero = characters "ab"
two_reads (suc zero) = characters "cde"
two_reads (suc (suc i)) = []

abbrev blocks : ℕ → List ℕ
blocks zero = []
blocks (suc n) = 0 ∷ blocks n

two_reads-quiet : (j : ℕ) → 2 ≤ j → two_reads j ≡ []
two_reads-quiet zero h = absurd (omega (arith, h))
two_reads-quiet (suc zero) h = absurd (omega (arith, h))
two_reads-quiet (suc (suc j)) h = refl

read_chunk_ends_example :
    (n : ℕ) × (block : List ℕ) × (read_chunk_non_blocking_fd blocks (λ i. []) 20000 []
      ≡ some (n, block))
read_chunk_ends_example = read_chunk_ends blocks (λ i. []) 20000 [] (omega arith)

-- 'x' has arrived; two ends of lines are on their way.
abbrev ended : Reader
ended = record {
  fd = record { chunks = characters "\n\nz" ∷ []; fails = false };
  buf = characters "xaaa";
  buf_size = 4;
  cursor = 0;
  bytes_in_buffer = 1;
}
