-- ===== src/Pipe/Order.antt =====
-- The bytes of a pipe come out in the order in which they went in, whatever the interleaving.
use os_lab5_challenge.Base.{
  ℕ, ◌+◌, ◌-◌, ◌%◌, ◌^◌, ◌≤◌, ◌<◌, ◌≡◌, refl, ◌∙◌, Bool, List, [], ◌∷◌, arith, ◌==◌, ==_ne, ==_same,
  ==_iff, subst, ◌≢◌, ap, Bool-cases, inl, inr,
}
use os_lab5_challenge.Pipe.{
  Phase, testing, checking, moving, advancing, returned, Ends, read_from, write_from, Turn, reads,
  writes, take_turn, interleave,
}

-- The byte that the reader has copied and not yet passed.
abbrev pub lag : Phase → ℕ
lag advancing = 1
lag _ = 0

-- The byte that an end has decided to move.
abbrev pub pending : Phase → ℕ
pending moving = 1
pending advancing = 1
pending _ = 0

-- `stream` is all that is ever written, and `taken` and `written` are how much of it has passed each end;
-- the calls of this state began at `r0` and `w0`.
pub record IsCoherent (stream : ℕ → ℕ) (r0 w0 taken : ℕ) (s : Ends) : Type 0 where
  pub read_at : s.pipe.p_rpos ≡ taken % 2 ^ 32
  pub write_at : s.pipe.p_wpos ≡ (w0 + s.writer.i) % 2 ^ 32
  pub passed : r0 + s.reader.i ≡ taken + lag s.reader.phase
  pub filled : taken + pending s.reader.phase ≤ w0 + s.writer.i
  pub room : w0 + s.writer.i + pending s.writer.phase ≤ taken + 32
  pub held : (j : ℕ) → taken ≤ j → j < w0 + s.writer.i → s.pipe.p_buf (j % 32) ≡ stream j
  pub stored :
      s.writer.phase ≡ advancing → s.pipe.p_buf ((w0 + s.writer.i) % 32) ≡ stream (w0 + s.writer.i)
  pub got : (j : ℕ) → j < s.reader.i → s.reader.buf j ≡ stream (r0 + j)
  pub source : (j : ℕ) → s.writer.buf j ≡ stream (w0 + j)

-- The byte that the reader copies is the next one of the stream.
read_next :
    {stream : ℕ → ℕ} {r0 w0 taken : ℕ} (s : Ends)
    → IsCoherent stream r0 w0 taken s
    → s.reader.phase ≡ moving
    → s.pipe.p_buf (s.pipe.p_rpos % 32) ≡ stream (r0 + s.reader.i)
read_next {stream} {r0} {w0} {taken} s c e =
    ap s.pipe.p_buf slot ∙ c.held taken (omega arith) (ground arith) ∙ ap stream (ground arith)
  where
    slot : s.pipe.p_rpos % 32 ≡ taken % 32
    slot = omega arith

-- The slot that the writer fills holds no byte that is still to be read.
slot_free :
    {stream : ℕ → ℕ} {r0 w0 taken : ℕ} (s : Ends)
    → IsCoherent stream r0 w0 taken s
    → s.writer.phase ≡ moving
    → (j : ℕ) → taken ≤ j
    → j < w0 + s.writer.i
    → s.pipe.p_wpos % 32 ≢ j % 32
slot_free {w0 = w0} {taken = taken} s c e j low high same =
    apart (w0 + s.writer.i) (ground arith) high (omega arith)
  where
    apart : (w : ℕ) → w + 1 ≤ taken + 32 → j < w → w % 32 ≡ j % 32 → ⊥
    apart w a b m = omega arith

module _ {stream : ℕ → ℕ} {r0 w0 : ℕ} where
  pub read_from-IsCoherent :
      (closed : Bool) (ph : Phase) {taken : ℕ} (s : Ends)
      → s.reader.phase ≡ ph
      → IsCoherent stream r0 w0 taken s
      → (t : ℕ) × IsCoherent stream r0 w0 t (read_from closed ph s)
  unfolding read_from
  read_from-IsCoherent closed testing {taken} s e c = (
    taken,
    record {
      read_at = c.read_at;
      write_at = c.write_at;
      passed = ground arith;
      filled = ground arith;
      room = c.room;
      held = c.held;
      stored = c.stored;
      got = c.got;
      source = c.source;
    },
  )
  read_from-IsCoherent closed checking {taken} s e c = (
    taken,
    record {
      read_at = c.read_at;
      write_at = c.write_at;
      passed = ground arith;
      filled = ground arith;
      room = c.room;
      held = c.held;
      stored = c.stored;
      got = c.got;
      source = c.source;
    },
  )
  read_from-IsCoherent closed moving {taken} s e c = (
    taken,
    record {
      read_at = c.read_at;
      write_at = c.write_at;
      passed = ground arith;
      filled = ground arith;
      room = c.room;
      held = c.held;
      stored = c.stored;
      got = λ j h. elim (Bool-cases (s.reader.i == j)) [
        | inl same ↦ rw same (read_next s c e ∙ ap (λ k. stream (r0 + k)) (ground arith))
        | inr other ↦ rw other (c.got j (ground arith))
      ];
      source = c.source;
    },
  )
  read_from-IsCoherent closed advancing {taken} s e c = (
    taken + 1,
    record {
      read_at = ground arith;
      write_at = c.write_at;
      passed = ground arith;
      filled = ground arith;
      room = ground arith;
      held = λ j low high. c.held j (omega arith) high;
      stored = c.stored;
      got = c.got;
      source = c.source;
    },
  )
  read_from-IsCoherent closed returned {taken} s e c = (taken, c)

  pub write_from-IsCoherent :
      (closed : Bool) (ph : Phase) {taken : ℕ} (s : Ends)
      → s.writer.phase ≡ ph
      → IsCoherent stream r0 w0 taken s
      → IsCoherent stream r0 w0 taken (write_from closed ph s)
  unfolding write_from
  write_from-IsCoherent closed testing {taken} s e c = record {
    read_at = c.read_at;
    write_at = c.write_at;
    passed = c.passed;
    filled = c.filled;
    room = ground arith;
    held = c.held;
    stored = ground arith;
    got = c.got;
    source = c.source;
  }
  write_from-IsCoherent closed checking {taken} s e c = record {
    read_at = c.read_at;
    write_at = c.write_at;
    passed = c.passed;
    filled = c.filled;
    room = ground arith;
    held = c.held;
    stored = ground arith;
    got = c.got;
    source = c.source;
  }
  write_from-IsCoherent closed moving {taken} s e c = record {
    read_at = c.read_at;
    write_at = c.write_at;
    passed = c.passed;
    filled = c.filled;
    room = ground arith;
    held = λ j low high.
        rw (==_ne (s.pipe.p_wpos % 32) (j % 32) (slot_free s c e j low high)) (c.held j low high);
    stored = λ _.
        rw (==_same (s.pipe.p_wpos % 32) ((w0 + s.writer.i) % 32) (omega arith))
          (c.source s.writer.i);
    got = c.got;
    source = c.source;
  }
  write_from-IsCoherent closed advancing {taken} s e c = record {
    read_at = c.read_at;
    write_at = ground arith;
    passed = c.passed;
    filled = ground arith;
    room = ground arith;
    held = λ j low high. elim (Bool-cases (w0 + s.writer.i == j)) [
      | inl same ↦ subst (λ k. s.pipe.p_buf (k % 32) ≡ stream k) ((==_iff _ j).0 same) (c.stored e)
      | inr other ↦ c.held j low (ground arith)
    ];
    stored = ground arith;
    got = c.got;
    source = c.source;
  }
  write_from-IsCoherent closed returned {taken} s e c = c

  take_turn-IsCoherent :
      (t : Turn) {taken : ℕ} (s : Ends)
      → IsCoherent stream r0 w0 taken s
      → (k : ℕ) × IsCoherent stream r0 w0 k (take_turn t s)
  unfolding take_turn
  take_turn-IsCoherent (reads closed) s c = read_from-IsCoherent closed s.reader.phase s refl c
  take_turn-IsCoherent (writes closed) {taken} s c =
      (taken, write_from-IsCoherent closed s.writer.phase s refl c)

  -- Whatever the order of the turns and the answers of `_pipe_is_closed`, the ends stay coherent: the
  -- reader has got a piece of the stream in order, the pipe holds the bytes from there to what the writer
  -- has written, and these are at most 32. Calls of `pipe_read` and `pipe_write` may begin at any
  -- place of the stream, and with bytes in the pipe.
  pub interleave-IsCoherent :
      (turns : List Turn) {taken : ℕ} (s : Ends)
      → IsCoherent stream r0 w0 taken s
      → (k : ℕ) × IsCoherent stream r0 w0 k (interleave turns s)
  unfolding interleave
  interleave-IsCoherent [] {taken} s c = (taken, c)
  interleave-IsCoherent (t ∷ ts) s c =
      let (k, c') = take_turn-IsCoherent t s c in interleave-IsCoherent ts (take_turn t s) c'

-- Both calls begin, and nothing is in the pipe.
pub record IsOpening (s : Ends) : Type 0 where
  pub in_range : s.pipe.p_rpos < 2 ^ 32
  pub no_bytes : s.pipe.p_wpos ≡ s.pipe.p_rpos
  pub reads_begin : s.reader.i ≡ 0
  pub writes_begin : s.writer.i ≡ 0
  pub reader_tests : s.reader.phase ≡ testing
  pub writer_tests : s.writer.phase ≡ testing

opening-IsCoherent :
    (s : Ends)
    → IsOpening s
    → let r = s.pipe.p_rpos in IsCoherent (λ k. s.writer.buf (k - r)) r r r s
opening-IsCoherent s o = record {
  read_at = omega arith;
  write_at = omega arith;
  passed = ground arith;
  filled = ground arith;
  room = ground arith;
  held = λ j low high. absurd (omega arith);
  stored = ground arith;
  got = λ j h. absurd (omega arith);
  source = λ j. ap s.writer.buf (omega arith);
}

-- From the start of both calls on an empty pipe, after any turns and any answers of `_pipe_is_closed`, the
-- bytes that the reader has got are the first bytes of the writer's buffer, in order; the reader has
-- got at most what is written, and at most 32 bytes fewer.
pub interleave_lem :
    (turns : List Turn) (s : Ends)
    → IsOpening s
    → let s' = interleave turns s in
      ((j : ℕ) → j < s'.reader.i → s'.reader.buf j ≡ s.writer.buf j)
      × (s'.reader.i ≤ s'.writer.i)
      × (s'.writer.i ≤ s'.reader.i + 32)
interleave_lem turns s o =
    let (k, c) = interleave-IsCoherent turns s (opening-IsCoherent s o) in
    (λ j h. c.got j h ∙ ap s.writer.buf (omega arith), ground arith, ground arith)
