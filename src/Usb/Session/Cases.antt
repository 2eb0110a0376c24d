-- ===== src/Usb/Session/Cases.antt =====
-- The cases of `ReadData` and `NewSession` on arbitrary bytes.
use wall_era.Common.{
  ℕ, ◌+◌, ◌-◌, ◌≡◌, ◌≢◌, ◌⊎◌, ap, ◌∙◌, arith, true, Option, List, ◌∷◌, none, some, Option-cases,
  inl, inr, ==_ne,
}
use wall_era.Common.Go.{Result-cases, ok}
use wall_era.Common.Bytes.{uint16}
use wall_era.Usb.Frame.{
  HidFrame, HidFrameNext, Frame, Kind, Error, type_frame, type_frame_next, first, next,
  hid_frame_tag, tag, channel_id, packet_index, validate, decode_frame, decode_frame_next,
  read_frame,
}
use wall_era.Usb.Frame.Wire.{IsFrame, IsFrameNext, read_array-length}
use wall_era.Usb.Session.{
  expected_kind, Session, fresh, note_length, finish, store_frame, session_read_frame, read_data,
  new_session,
}

-- A frame of each kind, with fields in the range of their types.
abbrev pub HasKind : Kind → Frame → Type 0
HasKind type_frame (first hf) = IsFrame hf
HasKind type_frame (next hf) = ⊥
HasKind type_frame_next (first hf) = ⊥
HasKind type_frame_next (next hf) = IsFrameNext hf

decode_frame-IsFrame : (bs : List ℕ) (hf : HidFrame) → decode_frame bs ≡ some hf → IsFrame hf
unfolding decode_frame
decode_frame-IsFrame (c1 ∷ c0 ∷ t ∷ p1 ∷ p0 ∷ l1 ∷ l0 ∷ rest) hf e =
    ground (arith, read_array-length 57 rest hf.data_inner)
decode_frame-IsFrame _ hf e = cc

decode_frame_next-IsFrameNext :
    (bs : List ℕ) (hf : HidFrameNext) → decode_frame_next bs ≡ some hf → IsFrameNext hf
unfolding decode_frame_next
decode_frame_next-IsFrameNext (c1 ∷ c0 ∷ t ∷ p1 ∷ p0 ∷ rest) hf e =
    ground (arith, read_array-length 59 rest hf.data_inner)
decode_frame_next-IsFrameNext _ hf e = cc

read_frame-HasKind :
    (bs : List ℕ) (kind : Kind) (f : Frame) → read_frame bs kind ≡ ok f → HasKind kind f
unfolding read_frame
read_frame-HasKind bs type_frame (first hf) e = ground (arith, decode_frame-IsFrame bs hf)
read_frame-HasKind bs type_frame (next hf) e = ground arith
read_frame-HasKind bs type_frame_next (first hf) e = ground arith
read_frame-HasKind bs type_frame_next (next hf) e =
    ground (arith, decode_frame_next-IsFrameNext bs hf)

module _ (grow : ℕ → ℕ) where
  -- `ReadData` refuses the bytes and keeps the session, or hands on a frame of the kind that the
  -- session expects.
  pub read_data_cases :
      (s : Session) (bs : List ℕ)
      → ((e : Error) × (read_data grow s bs ≡ (s, some e)))
        ⊎ ((f : Frame) × HasKind (expected_kind s) f
            × (validate f ≡ none)
            × (read_data grow s bs ≡ session_read_frame grow s f))
  unfolding read_data
  read_data_cases s bs = elim (Result-cases (read_frame bs (expected_kind s))) [
    | inr (e, refused) ↦ inl (e, rw refused)
    | inl (f, parsed) ↦ elim (Option-cases (validate f)) [
      | inl valid ↦ inr (f, read_frame-HasKind bs _ f parsed, valid, rw (parsed, valid))
      | inr (e, invalid) ↦ inl (e, rw (parsed, invalid))
    ]
  ]

  -- What `ReadFrame` can do to a session that has begun.
  pub session_read_frame_cases :
      (s : Session) (f : Frame)
      → s.channel ≢ 0
      → ((session_read_frame grow s f).0 ≡ s)
        ⊎ ((s.should_read_more ≡ true)
            × (channel_id f ≡ s.channel)
            × (packet_index f ≢ 0)
            × (uint16 (packet_index f + 65536 - s.last_read_frame_index) ≡ 1)
            × (session_read_frame grow s f ≡ (finish (note_length f (store_frame grow f s)), none)))
  unfolding session_read_frame
  session_read_frame_cases s f begun = ground arith

  session_read_frame_error :
      (s : Session) (f : Frame) (e : Error)
      → (session_read_frame grow s f).1 ≡ some e
      → (session_read_frame grow s f).0 ≡ s
  unfolding session_read_frame
  session_read_frame_error s f e h = ground arith

  -- A call of `ReadData` that returns an error has not changed the session.
  pub read_data_error_keeps :
      (s : Session) (bs : List ℕ) (e : Error)
      → (read_data grow s bs).1 ≡ some e
      → (read_data grow s bs).0 ≡ s
  read_data_error_keeps s bs e h = elim (read_data_cases s bs) [
    | inl (e', refused) ↦ ap (λ (r : Session × Option Error). r.0) refused
    | inr (f, kind, valid, run) ↦ rw run (session_read_frame_error s f e (rw run at h))
  ]

-- The session after an accepted follow-up frame.
abbrev pub after : (ℕ → ℕ) → Session → HidFrameNext → Session
after grow s hf = finish (store_frame grow (next hf) s)

-- The session that a first frame begins.
abbrev pub begun : (ℕ → ℕ) → HidFrame → Session
begun grow hf = finish (note_length (first hf) (store_frame grow (first hf) fresh))

-- A frame that a session accepts continues it.
pub record Continues (s : Session) (hf : HidFrameNext) : Type 0 where
  pub frame : IsFrameNext hf
  pub more : s.should_read_more ≡ true
  pub same_channel : hf.channel_id_inner ≡ s.channel
  pub later : hf.packet_index_inner ≢ 0
  pub in_order : uint16 (hf.packet_index_inner + 65536 - s.last_read_frame_index) ≡ 1

validate-none : (f : Frame) → validate f ≡ none → (tag f ≡ hid_frame_tag) × (channel_id f ≢ 0)
unfolding validate
validate-none f e = ground arith

module _ (grow : ℕ → ℕ) where
  accepted :
      (s : Session) (bs : List ℕ) (f : Frame)
      → s.channel ≢ 0
      → HasKind (expected_kind s) f
      → s.should_read_more ≡ true
      → channel_id f ≡ s.channel
      → packet_index f ≢ 0
      → uint16 (packet_index f + 65536 - s.last_read_frame_index) ≡ 1
      → read_data grow s bs ≡ (finish (note_length f (store_frame grow f s)), none)
      → (hf : HidFrameNext) × Continues s hf × (read_data grow s bs ≡ (after grow s hf, none))
  accepted s bs (first hf) c kind more same later index run =
      absurd (rw (==_ne s.channel 0 c) at kind)
  accepted s bs (next hf) c kind more same later index run = (
    hf,
    record {
      frame = rw (==_ne s.channel 0 c) at kind;
      more = more;
      same_channel = same;
      later = later;
      in_order = index;
    },
    run,
  )

  -- A session that has begun is kept, or goes on with a frame that continues it.
  pub read_data_begun :
      (s : Session) (bs : List ℕ)
      → s.channel ≢ 0
      → ((read_data grow s bs).0 ≡ s)
        ⊎ ((hf : HidFrameNext) × Continues s hf × (read_data grow s bs ≡ (after grow s hf, none)))
  read_data_begun s bs c = elim (read_data_cases grow s bs) [
    | inl (e, refused) ↦ inl (ap (λ (r : Session × Option Error). r.0) refused)
    | inr (f, kind, valid, run) ↦ elim (session_read_frame_cases grow s f c) [
      | inl kept ↦ inl (ap (λ (r : Session × Option Error). r.0) run ∙ kept)
      | inr (more, same, later, index, read) ↦
          inr (accepted s bs f c kind more same later index (run ∙ read))
    ]
  ]

  first_accepted :
      (bs : List ℕ) (f : Frame)
      → HasKind type_frame f
      → validate f ≡ none
      → read_data grow fresh bs ≡ session_read_frame grow fresh f
      → (hf : HidFrame) × (IsFrame hf)
        × (hf.channel_id_inner ≢ 0)
        × (read_data grow fresh bs ≡ (begun grow hf, none))
  unfolding session_read_frame
  first_accepted bs (first hf) kind valid run = (hf, kind, (validate-none (first hf) valid).1, run)
  first_accepted bs (next hf) kind valid run = absurd kind

  new_session_refused :
      (bs : List ℕ) (s : Session) (e : Error)
      → read_data grow fresh bs ≡ (fresh, some e)
      → new_session grow bs ≢ ok s
  unfolding new_session
  new_session_refused bs s e refused made = cc (rw (refused, new_session) at made)

  new_session_read :
      (bs : List ℕ) (s s' : Session)
      → read_data grow fresh bs ≡ (s', none)
      → new_session grow bs ≡ ok s
      → s ≡ s'
  unfolding new_session
  new_session_read bs s s' read made = cc (rw (read, new_session) at made)

  -- `NewSession` returns only sessions that a valid first frame has begun.
  pub new_session_cases :
      (bs : List ℕ) (s : Session)
      → new_session grow bs ≡ ok s
      → (hf : HidFrame) × (IsFrame hf) × (hf.channel_id_inner ≢ 0) × (s ≡ begun grow hf)
  new_session_cases bs s e = elim (read_data_cases grow fresh bs) [
    | inl (e', refused) ↦ absurd (new_session_refused bs s e' refused e)
    | inr (f, kind, valid, run) ↦
        let (hf, size, c, read) = first_accepted bs f kind valid run in
        (hf, size, c, new_session_read bs s (begun grow hf) read e)
  ]
