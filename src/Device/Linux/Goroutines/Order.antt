-- ===== src/Device/Linux/Goroutines/Order.antt =====
-- In which order the gadget's chunks are written, and that the two goroutines do not block.
use wall_era.Common.{
  ℕ, ◌+◌, ◌*◌, ◌≤◌, ◌≡◌, ◌⊎◌, refl, sym, ap, ◌∙◌, arith, List, [], ◌∷◌, ◌++◌, Option, none, some,
  length, inl, inr, append_assoc, append-nil, length-append,
}
use wall_era.Common.Go.{Outcome, returns, panics}
use wall_era.Usb.Frame
use wall_era.Apps.{Capdu}
use wall_era.Device.Firmware.{HidHandler}
use wall_era.Device.Firmware.Channel.{then_rest}
use wall_era.Device.Linux.{linux_rx, linux_rx_all}
use wall_era.Device.Linux.Goroutines.{
  Gadget, idle_gadget, write_outbound, waiting, Step, rx_called, tx_called, chunk_written, Run,
  here, next,
}

abbrev takes : Option (List (List ℕ)) → ℕ
takes none = 0
takes (some chunks) = 1

waiting-write_outbound : (sent : List (List ℕ)) → waiting (write_outbound sent) ≡ sent
waiting-write_outbound [] = refl
waiting-write_outbound (chunk ∷ chunks) = refl

takes-write_outbound : (sent : List (List ℕ)) → takes (write_outbound sent) ≤ 1
takes-write_outbound [] = omega arith
takes-write_outbound (chunk ∷ chunks) = omega arith

module _ {S E : Type 0} (grow : ℕ → ℕ) (unmarshal : List ℕ → Option Capdu) where
  -- What is still to come, and how many steps that takes at most.
  record IsOnWay (last : HidHandler S E) (frames : List (List ℕ)) (steps n : ℕ) (t : Gadget S E)
      : Type 0 where
    rest : List (List ℕ)
    comes : linux_rx_all grow unmarshal t.handler t.inputs ≡ returns (last, rest)
    in_order : t.written ++ (t.writing ++ (waiting t.outbound ++ rest)) ≡ frames
    counts :
        n
          + (2 * length t.inputs
              + (takes t.outbound
                  + (length t.writing + (length (waiting t.outbound) + length rest))))
        ≤ steps

  rx_called-rest :
      (hh hh' last : HidHandler S E) (buf : List ℕ) (bufs sent rest : List (List ℕ))
      (e : Option Frame.Error)
      → linux_rx grow unmarshal hh buf ≡ returns (hh', sent, e)
      → linux_rx_all grow unmarshal hh (buf ∷ bufs) ≡ returns (last, rest)
      → (more : List (List ℕ)) × (linux_rx_all grow unmarshal hh' bufs ≡ returns (last, more))
        × (sent ++ more ≡ rest)
  rx_called-rest hh hh' last buf bufs sent rest e run comes =
      then_rest grow unmarshal last sent rest (linux_rx_all grow unmarshal hh' bufs)
        (rw run at comes)

  Step-IsOnWay :
      (last : HidHandler S E) (frames : List (List ℕ)) (steps n : ℕ) {t u : Gadget S E}
      → Step grow unmarshal t u
      → IsOnWay last frames steps n t
      → IsOnWay last frames steps (n + 1) u
  Step-IsOnWay last frames steps n (rx_called hh hh' buf bufs sent writing written e run) way =
      let (more, comes, split) =
        rx_called-rest hh hh' last buf bufs sent way.rest e run way.comes in
      let all : waiting (write_outbound sent) ++ more ≡ way.rest =
        ap (λ (l : List (List ℕ)). l ++ more) (waiting-write_outbound sent) ∙ split in
      record {
        rest = more;
        comes = comes;
        in_order = ap (λ (r : List (List ℕ)). written ++ (writing ++ r)) all ∙ way.in_order;
        counts = omega (
          arith,
          way.counts,
          ap length all,
          length-append (waiting (write_outbound sent)) more,
          takes-write_outbound sent,
        );
      }
  Step-IsOnWay last frames steps n (tx_called hh inputs chunks written) way = record {
    rest = way.rest;
    comes = way.comes;
    in_order = way.in_order;
    counts = omega (arith, way.counts);
  }
  Step-IsOnWay last frames steps n (chunk_written hh outbound chunk inputs chunks written) way =
      record {
        rest = way.rest;
        comes = way.comes;
        in_order =
            append_assoc written (chunk ∷ []) (chunks ++ (waiting outbound ++ way.rest))
            ∙ way.in_order;
        counts = omega (arith, way.counts);
      }

  Run-IsOnWay :
      (last : HidHandler S E) (frames inputs : List (List ℕ)) (hh : HidHandler S E)
      → linux_rx_all grow unmarshal hh inputs ≡ returns (last, frames)
      → {n : ℕ} {t : Gadget S E} → Run grow unmarshal (idle_gadget hh inputs) n t
      → IsOnWay last frames (2 * length inputs + length frames) n t
  Run-IsOnWay last frames inputs hh all here = record {
    rest = frames;
    comes = all;
    in_order = refl;
    counts = omega arith;
  }
  Run-IsOnWay last frames inputs hh all (next {n} run step) =
      Step-IsOnWay last frames (2 * length inputs + length frames) n step
        (Run-IsOnWay last frames inputs hh all run)

  -- Everything was read and written.
  abbrev pub Delivers : HidHandler S E → List (List ℕ) → Gadget S E → Type 0
  Delivers last frames t =
      t ≡ record { inputs = []; handler = last; outbound = none; writing = []; written = frames }

  rx_called_next :
      (hh last : HidHandler S E) (buf : List ℕ) (bufs writing written rest : List (List ℕ))
      (r : Outcome (HidHandler S E × List (List ℕ) × Option Frame.Error))
      → linux_rx grow unmarshal hh buf ≡ r
      → linux_rx_all grow unmarshal hh (buf ∷ bufs) ≡ returns (last, rest)
      → (u : Gadget S E) × Step grow unmarshal
          (record {
            inputs = buf ∷ bufs;
            handler = hh;
            outbound = none;
            writing = writing;
            written = written;
          })
          u
  rx_called_next hh last buf bufs writing written rest panics run comes = cc (rw run at comes)
  rx_called_next hh last buf bufs writing written rest (returns (hh', sent, e)) run comes =
      (_, rx_called hh hh' buf bufs sent writing written e run)

  goes_on :
      (last hh : HidHandler S E) (inputs : List (List ℕ)) (outbound : Option (List (List ℕ)))
      (writing written rest frames : List (List ℕ))
      → linux_rx_all grow unmarshal hh inputs ≡ returns (last, rest)
      → written ++ (writing ++ (waiting outbound ++ rest)) ≡ frames
      → ((u : Gadget S E) × Step grow unmarshal
            (record {
              inputs = inputs;
              handler = hh;
              outbound = outbound;
              writing = writing;
              written = written;
            })
            u)
        ⊎ Delivers last frames (record {
          inputs = inputs;
          handler = hh;
          outbound = outbound;
          writing = writing;
          written = written;
        })
  goes_on last hh inputs outbound (chunk ∷ chunks) written rest frames comes order =
      inl (_, chunk_written hh outbound chunk inputs chunks written)
  goes_on last hh inputs (some chunks) [] written rest frames comes order =
      inl (_, tx_called hh inputs chunks written)
  goes_on last hh (buf ∷ bufs) none [] written rest frames comes order =
      inl (
        rx_called_next hh last buf bufs [] written rest (linux_rx grow unmarshal hh buf) refl comes)
  goes_on last hh [] none [] written rest frames comes order =
      let done : rest ≡ [] = cc in
      let same : hh ≡ last = cc in
      let out : written ≡ frames =
        sym (append-nil written) ∙ ap (λ (r : List (List ℕ)). written ++ r) (sym done) ∙ order in
      inr (λ i. record {
        inputs = [];
        handler = same i;
        outbound = none;
        writing = [];
        written = out i;
      })

  -- Where the calls of `Rx` for these reads, one after the other, do not panic and send some frames
  -- in all, then however far the two goroutines have run beside one another, the first of just those
  -- frames were written, in order, though `Rx` may have gone on while an answer was being written;
  -- they have made at most two steps for each read and one for each frame; and either they can go
  -- on, or everything was read and every frame was written, the handler being as after those calls.
  -- So they never block one another, and where the program is ended early, no frame was left out
  -- before one that was written.
  pub writes_in_order :
      (last hh : HidHandler S E) (inputs frames : List (List ℕ))
      → linux_rx_all grow unmarshal hh inputs ≡ returns (last, frames)
      → {n : ℕ} {t : Gadget S E} → Run grow unmarshal (idle_gadget hh inputs) n t
      → ((rest : List (List ℕ)) × (t.written ++ rest ≡ frames))
        × (n ≤ 2 * length inputs + length frames)
        × (((u : Gadget S E) × Step grow unmarshal t u) ⊎ Delivers last frames t)
  writes_in_order last hh inputs frames all {n} {t} run =
      let way = Run-IsOnWay last frames inputs hh all run in
      (
        (t.writing ++ (waiting t.outbound ++ way.rest), way.in_order),
        omega (arith, way.counts),
        goes_on last t.handler t.inputs t.outbound t.writing t.written way.rest frames way.comes
            way.in_order,
      )
