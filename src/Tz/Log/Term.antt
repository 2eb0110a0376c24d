-- ===== src/Tz/Log/Term.antt =====
-- bufferedTermLog of tee/trusted_os/tz/log.go, which nothing calls: what is flushed goes to a
-- terminal, too, in the colour of its world.
use wall_era.Common.{
  ℕ, ◌≡◌, refl, Bool, true, false, ◌||◌, List, [], ◌∷◌, ◌++◌, ltb, ◌==◌, if◌then◌else◌, length,
}
use wall_era.Tz.Log.{Console, buffered_stdout_log, flush, flush_chr, output_limit}

-- The escape codes of the terminal.
pub record Escape : Type 0 where
  pub red : List ℕ
  pub green : List ℕ
  pub reset : List ℕ

-- The console, and what was written to the terminal.
pub record Terminal : Type 0 where
  pub console : Console
  pub written : List ℕ

abbrev pub color_of : Escape → Bool → List ℕ
color_of t true = t.red
color_of t false = t.green

abbrev painted : Escape → Bool → ℕ → List ℕ → List ℕ
painted t ns c buf =
    if c == flush_chr || ltb output_limit (length buf) then color_of t ns ++ buf ++ t.reset else []

unfoldable pub buffered_term_log : Escape → ℕ → Bool → Terminal → Terminal
buffered_term_log t c true s =
    let bytes : List ℕ = s.console.non_secure_output ++ (c ∷ []) in
    let (buf, out) = flush c bytes in
    record {
      console = record s.console { non_secure_output = buf; stdout = s.console.stdout ++ out };
      written = s.written ++ painted t true c bytes;
    }
buffered_term_log t c false s =
    let bytes : List ℕ = s.console.secure_output ++ (c ∷ []) in
    let (buf, out) = flush c bytes in
    record {
      console = record s.console { secure_output = buf; stdout = s.console.stdout ++ out };
      written = s.written ++ painted t false c bytes;
    }

-- Standard output and the buffers go as with bufferedStdoutLog.
pub term_log-stdout_log :
    (t : Escape) (c : ℕ) (ns : Bool) (s : Terminal)
    → (buffered_term_log t c ns s).console ≡ buffered_stdout_log c ns s.console
unfolding buffered_term_log buffered_stdout_log
term_log-stdout_log t c true s = refl
term_log-stdout_log t c false s = refl
