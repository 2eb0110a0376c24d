-- ===== src/Device/Firmware/Channel.antt =====
-- Rx and Tx of firmware/wallera.go beside one another, over the channel between them: it holds
-- nothing, so that Rx waits in every send until Tx takes the frame.
use wall_era.Common.{
  ℕ, ◌+◌, ◌≤◌, ◌≡◌, ◌⊎◌, refl, sym, ap, ◌∙◌, arith, List, [], ◌∷◌, ◌++◌, Option, length, inl, inr,
  append_assoc, append-nil, length-append,
}
use wall_era.Common.Go.{Outcome, returns, panics, ◌>>=◌}
use wall_era.Usb.Frame
use wall_era.Apps.{Capdu}
use wall_era.Device.Firmware.{HidHandler, rx, rx_all}

-- The frames that wait at the USB endpoint, the handler as the running call of `Rx` leaves it, the
-- frames that this call has not sent yet, and those that `Tx` has returned.
pub record System (S E : Type 0) : Type 0 where
  pub inputs : List (List ℕ)
  pub handler : HidHandler S E
  pub pending : List (List ℕ)
  pub taken : List (List ℕ)

abbrev pub at_rest : {S E : Type 0} → HidHandler S E → List (List ℕ) → System S E
at_rest hh inputs = record { inputs = inputs; handler = hh; pending = []; taken = [] }

module _ {S E : Type 0} (grow : ℕ → ℕ) (unmarshal : List ℕ → Option Capdu) where
  -- `Rx` is called for a frame when its last call has sent all its frames, and `Tx` takes the
  -- frame that a call of `Rx` waits with.
  pub data Step : System S E → System S E → Type 0 where
    rx_called :
        (hh hh' : HidHandler S E) (buf : List ℕ) (bufs sent taken : List (List ℕ))
        (e : Option Frame.Error)
        → rx grow unmarshal hh buf ≡ returns (hh', sent, e)
        → Step
            (record { inputs = buf ∷ bufs; handler = hh; pending = []; taken = taken })
            (record { inputs = bufs; handler = hh'; pending = sent; taken = taken })
    tx_takes :
        (hh : HidHandler S E) (frame : List ℕ) (bufs pending taken : List (List ℕ))
        → Step
            (record { inputs = bufs; handler = hh; pending = frame ∷ pending; taken = taken })
            (record {
              inputs = bufs;
              handler = hh;
              pending = pending;
              taken = taken ++ (frame ∷ []);
            })

  -- A run of so many steps.
  pub data Run (s : System S E) : ℕ → System S E → Type 0 where
    here : Run s 0 s
    next : {n : ℕ} {t u : System S E} → Run s n t → Step t u → Run s (n + 1) u

  -- What is still to come, and how many steps that takes.
  record IsOnWay (last : HidHandler S E) (frames : List (List ℕ)) (steps n : ℕ) (t : System S E)
      : Type 0 where
    rest : List (List ℕ)
    comes : rx_all grow unmarshal t.handler t.inputs ≡ returns (last, rest)
    in_order : t.taken ++ (t.pending ++ rest) ≡ frames
    counts : n + (length t.inputs + (length t.pending + length rest)) ≡ steps

  abbrev pub sent_first :
      List (List ℕ)
      → Outcome (HidHandler S E × List (List ℕ))
      → Outcome (HidHandler S E × List (List ℕ))
  sent_first sent r = do (final, more) ← r; returns (final, sent ++ more)

  pub then_rest :
      (last : HidHandler S E) (sent rest : List (List ℕ))
      (r : Outcome (HidHandler S E × List (List ℕ)))
      → sent_first sent r ≡ returns (last, rest)
      → (more : List (List ℕ)) × (r ≡ returns (last, more)) × (sent ++ more ≡ rest)
  then_rest last sent rest (returns (final, more)) e = (more, cc, cc)
  then_rest last sent rest panics e = ([], cc, cc)

  rx_called-rest :
      (hh hh' last : HidHandler S E) (buf : List ℕ) (bufs sent rest : List (List ℕ))
      (e : Option Frame.Error)
      → rx grow unmarshal hh buf ≡ returns (hh', sent, e)
      → rx_all grow unmarshal hh (buf ∷ bufs) ≡ returns (last, rest)
      → (more : List (List ℕ)) × (rx_all grow unmarshal hh' bufs ≡ returns (last, more))
        × (sent ++ more ≡ rest)
  rx_called-rest hh hh' last buf bufs sent rest e run comes =
      then_rest last sent rest (rx_all grow unmarshal hh' bufs) (rw run at comes)

  Step-IsOnWay :
      (last : HidHandler S E) (frames : List (List ℕ)) (steps n : ℕ) {t u : System S E}
      → Step t u
      → IsOnWay last frames steps n t
      → IsOnWay last frames steps (n + 1) u
  Step-IsOnWay last frames steps n (rx_called hh hh' buf bufs sent taken e run) way =
      let (more, comes, split) =
        rx_called-rest hh hh' last buf bufs sent way.rest e run way.comes in
      record {
        rest = more;
        comes = comes;
        in_order = ap (λ (r : List (List ℕ)). taken ++ r) split ∙ way.in_order;
        counts = omega (arith, way.counts, ap length split, length-append sent more);
      }
  Step-IsOnWay last frames steps n (tx_takes hh frame bufs pending taken) way = record {
    rest = way.rest;
    comes = way.comes;
    in_order = append_assoc taken (frame ∷ []) (pending ++ way.rest) ∙ way.in_order;
    counts = omega (arith, way.counts);
  }

  Run-IsOnWay :
      (last : HidHandler S E) (frames inputs : List (List ℕ)) (hh : HidHandler S E)
      → rx_all grow unmarshal hh inputs ≡ returns (last, frames)
      → {n : ℕ} {t : System S E} → Run (at_rest hh inputs) n t
      → IsOnWay last frames (length inputs + length frames) n t
  Run-IsOnWay last frames inputs hh all here = record {
    rest = frames;
    comes = all;
    in_order = refl;
    counts = omega arith;
  }
  Run-IsOnWay last frames inputs hh all (next {n} run step) =
      Step-IsOnWay last frames (length inputs + length frames) n step
        (Run-IsOnWay last frames inputs hh all run)

  -- Everything was read and sent.
  abbrev pub Delivers : HidHandler S E → List (List ℕ) → System S E → Type 0
  Delivers last frames t = t ≡ record { inputs = []; handler = last; pending = []; taken = frames }

  rx_called_next :
      (hh last : HidHandler S E) (buf : List ℕ) (bufs taken rest : List (List ℕ))
      (r : Outcome (HidHandler S E × List (List ℕ) × Option Frame.Error))
      → rx grow unmarshal hh buf ≡ r
      → rx_all grow unmarshal hh (buf ∷ bufs) ≡ returns (last, rest)
      → (u : System S E) × Step
          (record { inputs = buf ∷ bufs; handler = hh; pending = []; taken = taken })
          u
  rx_called_next hh last buf bufs taken rest panics run comes = cc (rw run at comes)
  rx_called_next hh last buf bufs taken rest (returns (hh', sent, e)) run comes = (
    record { inputs = bufs; handler = hh'; pending = sent; taken = taken },
    rx_called hh hh' buf bufs sent taken e run,
  )

  goes_on :
      (last hh : HidHandler S E) (inputs pending taken rest frames : List (List ℕ))
      → rx_all grow unmarshal hh inputs ≡ returns (last, rest)
      → taken ++ (pending ++ rest) ≡ frames
      → ((u : System S E) × Step
            (record { inputs = inputs; handler = hh; pending = pending; taken = taken })
            u)
        ⊎ Delivers last frames
            (record { inputs = inputs; handler = hh; pending = pending; taken = taken })
  goes_on last hh inputs (frame ∷ pending) taken rest frames comes order =
      inl (_, tx_takes hh frame inputs pending taken)
  goes_on last hh (buf ∷ bufs) [] taken rest frames comes order =
      inl (rx_called_next hh last buf bufs taken rest (rx grow unmarshal hh buf) refl comes)
  goes_on last hh [] [] taken rest frames comes order =
      let done : rest ≡ [] = cc in
      let same : hh ≡ last = cc in
      let out : taken ≡ frames =
        sym (append-nil taken) ∙ ap (λ (r : List (List ℕ)). taken ++ r) (sym done) ∙ order in
      inr (λ i. record { inputs = []; handler = same i; pending = []; taken = out i })

  -- Where the calls of `Rx` for these frames, one after the other, do not panic and send some
  -- frames in all, then however far `Rx` and `Tx` have run beside one another, `Tx` has returned the
  -- first of just those frames, in order; they have made at most one step for each call and each
  -- frame; and either they can go on, or everything was read and every frame was returned, the
  -- handler being as after those calls. So they never block one another, and every run that goes on
  -- while it can delivers all frames.
  pub delivers :
      (last hh : HidHandler S E) (inputs frames : List (List ℕ))
      → rx_all grow unmarshal hh inputs ≡ returns (last, frames)
      → {n : ℕ} {t : System S E} → Run (at_rest hh inputs) n t
      → ((rest : List (List ℕ)) × (t.taken ++ rest ≡ frames))
        × (n ≤ length inputs + length frames)
        × (((u : System S E) × Step t u) ⊎ Delivers last frames t)
  delivers last hh inputs frames all {n} {t} run =
      let way = Run-IsOnWay last frames inputs hh all run in
      (
        (t.pending ++ way.rest, way.in_order),
        omega (arith, way.counts),
        goes_on last t.handler t.inputs t.pending t.taken way.rest frames way.comes way.in_order,
      )
