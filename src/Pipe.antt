-- ===== src/Pipe.antt =====
-- The pipes of user/lib/pipe.c: one call of `pipe_read` and one of `pipe_write` on the two ends of a pipe,
-- interleaved in any way. A turn of an end is the test of its loop, the call of `_pipe_is_closed`, the
-- copy of a byte, or the update of a position; positions are 32-bit and wrap around. `n` is below 2^31.
pub mod Order
pub mod Drain
pub mod Close
use os_lab5_challenge.Base.{
  ℕ, ◌+◌, ◌-◌, ◌%◌, ◌^◌, Bool, true, false, List, [], ◌∷◌, ltb, ◌==◌, if◌then◌else◌, update,
}

-- `struct Pipe`
pub record Pipe : Type 0 where
  pub p_rpos : ℕ
  pub p_wpos : ℕ
  pub p_buf : ℕ → ℕ

-- Where a call stands: at the head of the loop, before `_pipe_is_closed`, before the copy of a byte,
-- before the update of the position, or returned (`i` is the result).
pub data Phase : Type 0 where
  testing checking moving advancing returned : Phase

-- The variables of a call: `n`, `i`, and the caller's buffer.
pub record Transfer : Type 0 where
  pub n : ℕ
  pub i : ℕ
  pub buf : ℕ → ℕ
  pub phase : Phase

pub record Ends : Type 0 where
  pub pipe : Pipe
  pub reader : Transfer
  pub writer : Transfer

-- `p->p_wpos - p->p_rpos`
abbrev pub used : Pipe → ℕ
used p = (2 ^ 32 + p.p_wpos - p.p_rpos) % 2 ^ 32

abbrev pub after_read_test : Pipe → Transfer → Phase
after_read_test p t =
    if ltb t.i t.n
    then (if p.p_rpos == p.p_wpos then (if ltb 0 t.i then returned else checking) else moving)
    else returned

abbrev pub after_write_test : Pipe → Transfer → Phase
after_write_test p t = if ltb t.i t.n then (if used p == 32 then checking else moving) else returned

-- `closed` is what `_pipe_is_closed` answers; if it is false the env yields.
abbrev pub after_check : Bool → Phase
after_check closed = if closed then returned else testing

abbrev pub at_phase : Transfer → Phase → Transfer
at_phase t ph = record t { phase = ph }

unfoldable pub read_from : Bool → Phase → Ends → Ends
read_from closed testing s = record s {
  reader = at_phase s.reader (after_read_test s.pipe s.reader);
}
read_from closed checking s = record s { reader = at_phase s.reader (after_check closed) }
read_from closed moving s = record s {
  reader = record s.reader {
    buf = update s.reader.buf s.reader.i (s.pipe.p_buf (s.pipe.p_rpos % 32));
    i = s.reader.i + 1;
    phase = advancing;
  };
}
read_from closed advancing s = record s {
  pipe = record s.pipe { p_rpos = (s.pipe.p_rpos + 1) % 2 ^ 32 };
  reader = at_phase s.reader testing;
}
read_from closed returned s = s

unfoldable pub write_from : Bool → Phase → Ends → Ends
write_from closed testing s = record s {
  writer = at_phase s.writer (after_write_test s.pipe s.writer);
}
write_from closed checking s = record s { writer = at_phase s.writer (after_check closed) }
write_from closed moving s = record s {
  pipe = record s.pipe {
    p_buf = update s.pipe.p_buf (s.pipe.p_wpos % 32) (s.writer.buf s.writer.i);
  };
  writer = at_phase s.writer advancing;
}
write_from closed advancing s = record s {
  pipe = record s.pipe { p_wpos = (s.pipe.p_wpos + 1) % 2 ^ 32 };
  writer = record s.writer { i = s.writer.i + 1; phase = testing };
}
write_from closed returned s = s

-- A turn of `pipe_read`, and one of `pipe_write`.
unfoldable pub pipe_read : Bool → Ends → Ends
unfolding read_from
pipe_read closed s = read_from closed s.reader.phase s

unfoldable pub pipe_write : Bool → Ends → Ends
unfolding write_from
pipe_write closed s = write_from closed s.writer.phase s

-- Which end runs next, and what `_pipe_is_closed` would answer it.
pub data Turn : Type 0 where
  reads : Bool → Turn
  writes : Bool → Turn

unfoldable pub take_turn : Turn → Ends → Ends
unfolding pipe_read pipe_write
take_turn (reads closed) s = pipe_read closed s
take_turn (writes closed) s = pipe_write closed s

unfoldable pub interleave : List Turn → Ends → Ends
unfolding take_turn
interleave [] s = s
interleave (t ∷ ts) s = interleave ts (take_turn t s)
