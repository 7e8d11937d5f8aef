-- ===== src/Net/Examples/Buffers.antt =====
-- The buffer's theorems at a small storage.
use ham.Net.Buffer.Sequence.{reads_all, retrieves, reads, appends, IsReady, call_all, calls_bytes}
use ham.Net.Buffer.Ints.NetworkOrder.{big_endian, read_int64-Holds}
use ham.Net.Buffer.Input.{read_fd-Holds, received, read_fd}
use ham.Net.Buffer.Ops.{Holds}
use ham.Net.Buffer.Ints.{read_int64}
use ham.Net.Buffer.{Buffer}
use ham.Net.Buffer.Contents.{contents, IsValid}
use ham.Net.Buffer.Sequence.Matching.{call_all-Matches}
use ham.Net.Buffer.Sequence.{Call}
use ham.Base.{List, ◌≡◌, refl, some, [], ◌∷◌, ◌++◌, arith, Returns}

-- Four unread bytes, and two bytes of room.
abbrev four_bytes : Buffer
four_bytes = record {
  buffer = 0 ∷ 0 ∷ 0 ∷ 0 ∷ 0 ∷ 0 ∷ 0 ∷ 0 ∷ 71 ∷ 69 ∷ 84 ∷ 32 ∷ 0 ∷ 0 ∷ [];
  read_index = 8;
  write_index = 12;
}

four_bytes-IsValid : IsValid four_bytes
four_bytes-IsValid = record {
  ordered = omega arith;
  within = omega arith;
  room = omega arith;
  bounded = omega arith;
}

read_fd-Holds_example :
    Returns
      (read_fd four_bytes 0 (received (1 ∷ 2 ∷ 3 ∷ [])))
      (λ r. (r.count ≡ some 3) × Holds (contents four_bytes ++ (1 ∷ 2 ∷ 3 ∷ [])) r.buffer_after)
read_fd-Holds_example =
    read_fd-Holds four_bytes 0 (1 ∷ 2 ∷ 3 ∷ []) four_bytes-IsValid (omega arith) (omega arith)

-- The integer 258 in network order, and one byte more.
abbrev with_int64 : Buffer
with_int64 = record {
  buffer = 0 ∷ 0 ∷ 0 ∷ 0 ∷ 0 ∷ 0 ∷ 0 ∷ 0 ∷ 0 ∷ 0 ∷ 0 ∷ 0 ∷ 0 ∷ 0 ∷ 1 ∷ 2 ∷ 7 ∷ [];
  read_index = 8;
  write_index = 17;
}

with_int64-Holds : Holds (big_endian 8 258 ++ (7 ∷ [])) with_int64
with_int64-Holds = record {
  valid = record {
    ordered = omega arith;
    within = omega arith;
    room = omega arith;
    bounded = omega arith;
  };
  holds = unfold contents big_endian in refl;
}

read_int64-Holds_example : Returns (read_int64 with_int64) (λ r. (r.0 ≡ 258) × Holds (7 ∷ []) r.1)
read_int64-Holds_example = read_int64-Holds with_int64 258 (7 ∷ []) with_int64-Holds (omega arith)

-- Three bytes more, and reads of some and of all.
abbrev calls : List Call
calls = appends (1 ∷ 2 ∷ 3 ∷ []) ∷ reads 5 ∷ retrieves 1 ∷ reads_all ∷ []

call_all-Matches_example :
    Returns
      (call_all calls four_bytes)
      λ r. (r.0 ≡ [] ∷ (71 ∷ 69 ∷ 84 ∷ 32 ∷ 1 ∷ []) ∷ [] ∷ (3 ∷ []) ∷ []) × IsReady 10 [] r.1
unfolding calls_bytes
call_all-Matches_example = call_all-Matches calls 10 (71 ∷ 69 ∷ 84 ∷ 32 ∷ []) four_bytes (record {
  state = record { valid = four_bytes-IsValid; holds = unfold contents in refl };
  room = omega arith;
})
