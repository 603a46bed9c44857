-- ===== src/Pipe/Drain.antt =====
-- What a reader gets whose writer is gone: `pipe_read` alone, with `_pipe_is_closed` true.
use os_lab5_challenge.Base.{
  ℕ, zero, suc, ◌+◌, ◌*◌, ◌%◌, ◌^◌, ◌≤◌, ◌<◌, ◌≡◌, refl, sym, ap, ◌∙◌, subst, true, arith, ltb,
  if◌then◌else◌, update, Bool-cases, inl, inr,
}
use os_lab5_challenge.Pipe.{
  Phase, testing, checking, moving, returned, Ends, used, at_phase, after_read_test, read_from,
  pipe_read,
}

-- That many turns of the reader.
unfoldable pub read_alone : ℕ → Ends → Ends
read_alone zero s = s
read_alone (suc k) s = read_alone k (pipe_read true s)

abbrev min : ℕ → ℕ → ℕ
min a b = if ltb a b then a else b

-- The state after one byte.
abbrev got_one : Ends → Ends
got_one s = record s {
  pipe = record s.pipe { p_rpos = (s.pipe.p_rpos + 1) % 2 ^ 32 };
  reader = record s.reader {
    buf = update s.reader.buf s.reader.i (s.pipe.p_buf (s.pipe.p_rpos % 32));
    i = s.reader.i + 1;
    phase = testing;
  };
}

abbrev moved_to : Phase → Ends → Ends
moved_to ph s = record s { reader = at_phase s.reader ph }

tested :
    (s : Ends) {ph : Phase}
    → s.reader.phase ≡ testing
    → after_read_test s.pipe s.reader ≡ ph
    → pipe_read true s ≡ moved_to ph s
unfolding pipe_read
tested s e f = ap (λ ph. read_from true ph s) e ∙ ap (λ ph. moved_to ph s) f

one_byte :
    (s : Ends) (k : ℕ)
    → s.reader.phase ≡ testing
    → after_read_test s.pipe s.reader ≡ moving
    → read_alone (suc (suc (suc k))) s ≡ read_alone k (got_one s)
unfolding read_alone pipe_read
one_byte s k e f = ap (λ t. read_alone (suc (suc k)) t) (tested s e f)

stays_returned : (s : Ends) (k : ℕ) → s.reader.phase ≡ returned → read_alone k s ≡ s
unfolding read_alone pipe_read
stays_returned s zero e = refl
stays_returned s (suc k) e =
    ap (read_alone k) (ap (λ ph. read_from true ph s) e) ∙ stays_returned s k e

-- `_pipe_is_closed` answers that it is.
told_closed :
    (s : Ends) (k : ℕ)
    → s.reader.phase ≡ testing
    → after_read_test s.pipe s.reader ≡ checking
    → read_alone (suc (suc k)) s ≡ moved_to returned s
unfolding read_alone pipe_read
told_closed s k e f =
    ap (λ t. read_alone (suc k) t) (tested s e f) ∙ stays_returned (moved_to returned s) k refl

told_end :
    (s : Ends) (k : ℕ)
    → s.reader.phase ≡ testing
    → after_read_test s.pipe s.reader ≡ returned
    → read_alone (suc k) s ≡ moved_to returned s
unfolding read_alone
told_end s k e f =
    ap (λ t. read_alone k t) (tested s e f) ∙ stays_returned (moved_to returned s) k refl

-- The call has ended, with this result.
abbrev Returns : ℕ → Ends → Type 0
Returns i s = (s.reader.phase ≡ returned) × (s.reader.i ≡ i)

ended_at : {s : Ends} (t : Ends) {i : ℕ} → s ≡ moved_to returned t → t.reader.i ≡ i → Returns i s
ended_at t e f = (ap (λ u. u.reader.phase) e, ap (λ u. u.reader.i) e ∙ f)

drain :
    (left held k : ℕ) (s : Ends)
    → s.reader.phase ≡ testing
    → s.reader.n ≡ s.reader.i + left
    → s.pipe.p_rpos < 2 ^ 32
    → s.pipe.p_wpos ≡ (s.pipe.p_rpos + held) % 2 ^ 32
    → held ≤ 32
    → 3 * left + 2 ≤ k
    → Returns (s.reader.i + min left held) (read_alone k s)
drain left held zero s e n r w h b = absurd (omega arith)
drain left held (suc zero) s e n r w h b = absurd (omega arith)
drain zero held (suc (suc k)) s e n r w h b =
    ended_at s (told_end s (suc k) e (ground arith)) (ground arith)
drain (suc left) zero (suc (suc k)) s e n r w h b = elim (Bool-cases (ltb 0 s.reader.i)) [
  | inl some_read ↦ ended_at s (told_end s (suc k) e (ground arith)) (ground arith)
  | inr none_read ↦ ended_at s (told_closed s k e (ground arith)) (ground arith)
]
drain (suc left) (suc held) (suc (suc zero)) s e n r w h b = absurd (omega arith)
drain (suc left) (suc held) (suc (suc (suc k))) s e n r w h b =
    subst (λ t. Returns (s.reader.i + min (suc left) (suc held)) t)
      (sym (one_byte s k e (ground arith)))
      (subst (λ i. Returns i (read_alone k (got_one s))) (ground arith)
        (drain left held k (got_one s) refl (ground arith) (omega arith) (ground arith)
          (omega arith) (omega arith)))

-- Once `_pipe_is_closed` is true, `pipe_read` of `n` bytes with no writer at work returns within `3n + 2`
-- turns, with as many bytes as the pipe holds or with `n` if that is less.
pub read_alone_lem :
    (s : Ends) (k : ℕ)
    → s.reader.phase ≡ testing
    → s.reader.i ≡ 0
    → s.pipe.p_rpos < 2 ^ 32
    → s.pipe.p_wpos < 2 ^ 32
    → used s.pipe ≤ 32
    → 3 * s.reader.n + 2 ≤ k
    → ((read_alone k s).reader.phase ≡ returned)
      × ((read_alone k s).reader.i ≡ min s.reader.n (used s.pipe))
read_alone_lem s k e i r w h b =
    subst (λ m. Returns m (read_alone k s)) (ground arith)
      (drain s.reader.n (used s.pipe) k s e (omega arith) r (omega arith) h b)
