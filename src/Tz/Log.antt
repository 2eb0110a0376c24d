-- ===== src/Tz/Log.antt =====
-- tee/trusted_os/tz/log.go: the line buffers of the two worlds.
pub mod Term
use wall_era.Common.{
  ℕ, ◌≤◌, ◌≡◌, sym, ap, ◌∙◌, arith, Bool, true, false, List, [], ◌∷◌, ◌++◌, ◌||◌, ltb, ◌==◌,
  if◌then◌else◌, length, length-append, append-nil, append_assoc, Bool-cases, inl, inr,
}

-- The two buffers, and what was written to standard output.
pub record Console : Type 0 where
  pub secure_output : List ℕ
  pub non_secure_output : List ℕ
  pub stdout : List ℕ

abbrev pub output_limit : ℕ
output_limit = 1024

abbrev pub flush_chr : ℕ
flush_chr = 0x0a

-- The buffer after a byte, and what it flushes.
abbrev pub flush : ℕ → List ℕ → List ℕ × List ℕ
flush c buf = if c == flush_chr || ltb output_limit (length buf) then ([], buf) else (buf, [])

unfoldable pub buffered_stdout_log : ℕ → Bool → Console → Console
buffered_stdout_log c true s =
    let (buf, out) = flush c (s.non_secure_output ++ (c ∷ [])) in
    record s { non_secure_output = buf; stdout = s.stdout ++ out }
buffered_stdout_log c false s =
    let (buf, out) = flush c (s.secure_output ++ (c ∷ [])) in
    record s { secure_output = buf; stdout = s.stdout ++ out }

-- A byte from a world: `true` is the non-secure one.
abbrev pub log_all : List (ℕ × Bool) → Console → Console
log_all [] s = s
log_all ((c, ns) ∷ more) s = log_all more (buffered_stdout_log c ns s)

pub record IsBounded (s : Console) : Type 0 where
  pub secure_bounded : length s.secure_output ≤ output_limit
  pub non_secure_bounded : length s.non_secure_output ≤ output_limit

log-IsBounded :
    (c : ℕ) (ns : Bool) (s : Console) → IsBounded s → IsBounded (buffered_stdout_log c ns s)
unfolding buffered_stdout_log
log-IsBounded c true s h = ground (arith, length-append s.non_secure_output (c ∷ []))
log-IsBounded c false s h = ground (arith, length-append s.secure_output (c ∷ []))

-- Whatever bytes the two worlds print in whatever order, each buffer holds at most 1024 bytes.
pub log_all-IsBounded :
    (bytes : List (ℕ × Bool)) (s : Console) → IsBounded s → IsBounded (log_all bytes s)
log_all-IsBounded [] s h = h
log_all-IsBounded ((c, ns) ∷ more) s h = log_all-IsBounded more _ (log-IsBounded c ns s h)

-- What a world has printed that still waits in its buffer.
abbrev pub pending : Bool → Console → List ℕ
pending true s = s.non_secure_output
pending false s = s.secure_output

-- What one world prints.
abbrev pub log_world : Bool → List ℕ → Console → Console
log_world ns [] s = s
log_world ns (c ∷ more) s = log_world ns more (buffered_stdout_log c ns s)

pub log-keeps :
    (c : ℕ) (ns : Bool) (s : Console)
    → (buffered_stdout_log c ns s).stdout ++ pending ns (buffered_stdout_log c ns s)
      ≡ (s.stdout ++ pending ns s) ++ (c ∷ [])
unfolding buffered_stdout_log
log-keeps c true s =
    elim (Bool-cases
      (c == flush_chr || ltb output_limit (length (s.non_secure_output ++ (c ∷ []))))) [
        | inl flushes ↦
            rw flushes (append-nil _ ∙ sym (append_assoc s.stdout s.non_secure_output (c ∷ [])))
        | inr waits ↦
            rw (waits, append-nil s.stdout)
              (sym (append_assoc s.stdout s.non_secure_output (c ∷ [])))
      ]
log-keeps c false s =
    elim (Bool-cases (c == flush_chr || ltb output_limit (length (s.secure_output ++ (c ∷ []))))) [
      | inl flushes ↦
          rw flushes (append-nil _ ∙ sym (append_assoc s.stdout s.secure_output (c ∷ [])))
      | inr waits ↦
          rw (waits, append-nil s.stdout) (sym (append_assoc s.stdout s.secure_output (c ∷ [])))
    ]

-- Nothing that a world prints is lost, doubled or reordered while the other world is silent:
-- standard output, followed by what waits in the world's buffer, grows by exactly its bytes.
pub log_world-loses_nothing :
    (ns : Bool) (bytes : List ℕ) (s : Console)
    → (log_world ns bytes s).stdout ++ pending ns (log_world ns bytes s)
      ≡ (s.stdout ++ pending ns s) ++ bytes
log_world-loses_nothing ns [] s = sym (append-nil (s.stdout ++ pending ns s))
log_world-loses_nothing ns (c ∷ more) s =
    log_world-loses_nothing ns more (buffered_stdout_log c ns s)
    ∙ ap (λ (t : List ℕ). t ++ more) (log-keeps c ns s)
    ∙ append_assoc (s.stdout ++ pending ns s) (c ∷ []) more
