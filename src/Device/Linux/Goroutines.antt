-- ===== src/Device/Linux/Goroutines.antt =====
-- The two goroutines of `main` of cmd/wallera-linux/main.go, with `Tx`, `writeOutbound` and
-- `readOutbound`: the channel between them holds nothing, so that `Rx` waits with all the chunks of
-- an answer until the other goroutine has written those of the last one. A failing read or write
-- and a signal end the program where it stands.
pub mod Order
use wall_era.Common.{
  ℕ, ◌+◌, ◌*◌, ◌≤◌, ◌≡◌, ◌⊎◌, refl, sym, ap, ◌∙◌, arith, List, [], ◌∷◌, ◌++◌, Option, none, some,
  length, inl, inr, append_assoc, append-nil, length-append,
}
use wall_era.Common.Go.{Outcome, returns, panics}
use wall_era.Usb.Frame
use wall_era.Apps.{Capdu}
use wall_era.Device.Firmware.{HidHandler}
use wall_era.Device.Firmware.Channel.{then_rest}
use wall_era.Device.Linux.{linux_rx, linux_rx_all}

-- The frames that wait in the gadget file, the handler as the running call of `Rx` leaves it, the
-- chunks that this call waits with, those that the other goroutine has taken and not written yet,
-- and those that it has written.
pub record Gadget (S E : Type 0) : Type 0 where
  pub inputs : List (List ℕ)
  pub handler : HidHandler S E
  pub outbound : Option (List (List ℕ))
  pub writing : List (List ℕ)
  pub written : List (List ℕ)

abbrev pub idle_gadget : {S E : Type 0} → HidHandler S E → List (List ℕ) → Gadget S E
idle_gadget hh inputs = record {
  inputs = inputs;
  handler = hh;
  outbound = none;
  writing = [];
  written = [];
}

-- `writeOutbound` is called with the chunks of an answer, of which there is at least one.
abbrev pub write_outbound : List (List ℕ) → Option (List (List ℕ))
write_outbound [] = none
write_outbound (chunk ∷ chunks) = some (chunk ∷ chunks)

abbrev pub waiting : Option (List (List ℕ)) → List (List ℕ)
waiting none = []
waiting (some chunks) = chunks

module _ {S E : Type 0} (grow : ℕ → ℕ) (unmarshal : List ℕ → Option Capdu) where
  pub data Step : Gadget S E → Gadget S E → Type 0 where
    rx_called :
        (hh hh' : HidHandler S E) (buf : List ℕ) (bufs sent writing written : List (List ℕ))
        (e : Option Frame.Error)
        → linux_rx grow unmarshal hh buf ≡ returns (hh', sent, e)
        → Step
            (record {
              inputs = buf ∷ bufs;
              handler = hh;
              outbound = none;
              writing = writing;
              written = written;
            })
            (record {
              inputs = bufs;
              handler = hh';
              outbound = write_outbound sent;
              writing = writing;
              written = written;
            })
    tx_called :
        (hh : HidHandler S E) (inputs chunks written : List (List ℕ))
        → Step
            (record {
              inputs = inputs;
              handler = hh;
              outbound = some chunks;
              writing = [];
              written = written;
            })
            (record {
              inputs = inputs;
              handler = hh;
              outbound = none;
              writing = chunks;
              written = written;
            })
    chunk_written :
        (hh : HidHandler S E) (outbound : Option (List (List ℕ))) (chunk : List ℕ)
        (inputs chunks written : List (List ℕ))
        → Step
            (record {
              inputs = inputs;
              handler = hh;
              outbound = outbound;
              writing = chunk ∷ chunks;
              written = written;
            })
            (record {
              inputs = inputs;
              handler = hh;
              outbound = outbound;
              writing = chunks;
              written = written ++ (chunk ∷ []);
            })

  -- A run of so many steps.
  pub data Run (s : Gadget S E) : ℕ → Gadget S E → Type 0 where
    here : Run s 0 s
    next : {n : ℕ} {t u : Gadget S E} → Run s n t → Step t u → Run s (n + 1) u
