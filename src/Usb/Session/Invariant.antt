-- ===== src/Usb/Session/Invariant.antt =====
-- What a session keeps, whatever bytes arrive.
use wall_era.Common.{
  ℕ, ◌+◌, ◌-◌, ◌<◌, ◌≡◌, ◌≢◌, ◌⊎◌, refl, sym, ap, ◌∙◌, subst, arith, true, false, not, List, [],
  ◌∷◌, length, none, length-append, length-take, leb-false, inl, inr,
}
use native.Mathlib.Decide.{dec_lt}
use wall_era.Common.Go.{ok, truncate, len}
use wall_era.Usb.Frame.{HidFrame, HidFrameNext, first, next}
use wall_era.Usb.Session.{Session, fresh, note_length, finish, store_frame, read_data, new_session}
use wall_era.Usb.Session.Steps.{elems-write, finish_short, finish_full}
use wall_era.Usb.Session.Cases.{after, begun, Continues, read_data_begun, new_session_cases}

-- A session that has begun: it has a channel, it waits exactly while data are missing, and once
-- complete it holds as many bytes as were announced.
pub record IsSound (s : Session) : Type 0 where
  pub has_channel : s.channel ≢ 0
  pub waiting : s.should_read_more ≡ true → len s.buffer < s.amount_to_read
  pub complete : s.should_read_more ≡ false → len s.buffer ≡ s.amount_to_read

finish-IsSound :
    (s : Session)
    → s.channel ≢ 0
    → (len s.buffer < s.amount_to_read → s.should_read_more ≡ true)
    → IsSound (finish s)
unfolding truncate
finish-IsSound s c more = elim (dec_lt (len s.buffer) s.amount_to_read) [
  | yes short ↦
      rw (finish_short s short)
        (record { has_channel = c; waiting = λ _. short; complete = λ e. cc (more short) })
  | no full ↦ rw (finish_full s (omega arith)) (record {
    has_channel = c;
    waiting = λ e. cc;
    complete = λ _. omega (arith, length-take s.amount_to_read s.buffer.elems);
  })
]

pub length-stored :
    (grow : ℕ → ℕ) (s : Session) (hf : HidFrameNext)
    → length hf.data_inner ≡ 59
    → len (store_frame grow (next hf) s).buffer ≡ len s.buffer + 59
length-stored grow s hf size =
    ap length (elems-write grow s.buffer hf.data_inner)
    ∙ omega (arith, length-append s.buffer.elems hf.data_inner)

pub length-stored_first :
    (grow : ℕ → ℕ) (hf : HidFrame)
    → length hf.data_inner ≡ 57
    → len (note_length (first hf) (store_frame grow (first hf) fresh)).buffer ≡ 57
length-stored_first grow hf size = ap length (elems-write grow fresh.buffer hf.data_inner) ∙ size

pub after-IsSound :
    (grow : ℕ → ℕ) (s : Session) (hf : HidFrameNext)
    → IsSound s
    → Continues s hf
    → IsSound (after grow s hf)
after-IsSound grow s hf h goes =
    finish-IsSound (store_frame grow (next hf) s) (λ e. h.has_channel (sym goes.same_channel ∙ e))
      (λ _. goes.more)

pub begun-IsSound :
    (grow : ℕ → ℕ) (hf : HidFrame)
    → length hf.data_inner ≡ 57
    → hf.channel_id_inner ≢ 0
    → IsSound (begun grow hf)
begun-IsSound grow hf size c =
    finish-IsSound (note_length (first hf) (store_frame grow (first hf) fresh)) c (λ short.
      ap not (leb-false hf.data_length_inner 57 (omega (arith, length-stored_first grow hf size))))

module _ (grow : ℕ → ℕ) where
  -- Whatever bytes arrive, a session that has begun stays sound, whether they are accepted or not.
  pub read_data-IsSound : (s : Session) (bs : List ℕ) → IsSound s → IsSound (read_data grow s bs).0
  read_data-IsSound s bs h = elim (read_data_begun grow s bs h.has_channel) [
    | inl kept ↦ subst IsSound (sym kept) h
    | inr (hf, goes, read) ↦ rw read (after-IsSound grow s hf h goes)
  ]

  -- A session that `NewSession` returns is sound.
  pub new_session-IsSound : (bs : List ℕ) (s : Session) → new_session grow bs ≡ ok s → IsSound s
  new_session-IsSound bs s e =
      let (hf, frame, c, is_begun) = new_session_cases grow bs s e in
      subst IsSound (sym is_begun) (begun-IsSound grow hf frame.data_size c)

-- How many bytes a session still misses.
abbrev pub missing : Session → ℕ
missing s = s.amount_to_read - len s.buffer

-- Feed frames one after the other, whatever the answers are.
abbrev pub feed : (ℕ → ℕ) → Session → List (List ℕ) → Session
feed grow s [] = s
feed grow s (bs ∷ more) = feed grow (read_data grow s bs).0 more

module _ (grow : ℕ → ℕ) where
  after-missing :
      (s : Session) (hf : HidFrameNext)
      → Continues s hf
      → missing (after grow s hf) ≡ missing s - 59
  unfolding truncate
  after-missing s hf goes =
      elim (dec_lt (len (store_frame grow (next hf) s).buffer) s.amount_to_read) [
        | yes short ↦
            rw (finish_short (store_frame grow (next hf) s) short)
              (omega (arith, length-stored grow s hf goes.frame.data_size))
        | no full ↦ rw (finish_full (store_frame grow (next hf) s) (omega arith)) (
            omega (
              arith,
              length-stored grow s hf goes.frame.data_size,
              length-take s.amount_to_read (store_frame grow (next hf) s).buffer.elems,
            ))
      ]

  -- A call of `ReadData` on a session that has begun leaves it as it was, or takes 59 bytes off
  -- what is missing, and then returns no error.
  pub read_data_progress :
      (s : Session) (bs : List ℕ)
      → s.channel ≢ 0
      → ((read_data grow s bs).0 ≡ s)
        ⊎ (((read_data grow s bs).1 ≡ none) × (missing (read_data grow s bs).0 ≡ missing s - 59))
  read_data_progress s bs c = elim (read_data_begun grow s bs c) [
    | inl kept ↦ inl kept
    | inr (hf, goes, read) ↦ inr (rw read (refl, after-missing s hf goes))
  ]
