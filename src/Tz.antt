-- ===== src/Tz.antt =====
-- tee/trusted_os/tz/tz.go and tz/types/types.go: the mailboxes between the non-secure world and
-- the trusted applets, and the running of the applets that have mail.
pub mod Mailbox
pub mod Log
pub mod Config
pub mod Syscall
pub mod Boot
pub mod Rpc
mod Examples
use wall_era.Common.{ℕ, Bool, true, false, List, [], ◌∷◌, Option, none, some, ◌==◌, if◌then◌else◌}
use wall_era.Common.Go.{Outcome, returns, panics, ◌>>=◌, Result, ok, err}

pub record Mail : Type 0 where
  pub app_id : ℕ
  pub payload : List ℕ

pub data Error : Type 0 where
  app_not_found no_mail no_result mailbox_full result_box_full : Error

-- A `sync.Map` from application IDs to byte slices.
abbrev pub Box : Type 0
Box = List (ℕ × List ℕ)

abbrev pub load : Box → ℕ → Option (List ℕ)
load [] k = none
load ((j, v) ∷ box) k = if j == k then some v else load box k

abbrev pub delete : Box → ℕ → Box
delete [] k = []
delete ((j, v) ∷ box) k = if j == k then delete box k else (j, v) ∷ delete box k

abbrev pub store : Box → ℕ → List ℕ → Box
store box k v = (k, v) ∷ delete box k

abbrev pub keys : Box → List ℕ
keys [] = []
keys ((j, v) ∷ box) = j ∷ keys box

-- `apps` are the IDs of the registered images. The execution context of the non-secure world is
-- left out.
pub record Context : Type 0 where
  pub apps : List ℕ
  pub mailbox : Box
  pub result_box : Box

abbrev pub new_context : Context
new_context = record { apps = []; mailbox = []; result_box = [] }

abbrev pub taken_mail : Context → ℕ → Option (List ℕ) → Context × Result Error Mail
taken_mail c app_id none = (c, err no_mail)
taken_mail c app_id (some v) =
    (record c { mailbox = delete c.mailbox app_id }, ok (record { app_id = app_id; payload = v }))

-- `LoadAndDelete`, and the mail that it found.
unfoldable pub retrieve_mail : Context → ℕ → Context × Result Error Mail
retrieve_mail c app_id = taken_mail c app_id (load c.mailbox app_id)

abbrev put_response : Context → Mail → Option (List ℕ) → Context × Option Error
put_response c result none =
    (record c { result_box = store c.result_box result.app_id result.payload }, none)
put_response c result (some old) =
    (record c { result_box = delete c.result_box result.app_id }, some result_box_full)

-- `LoadAndDelete` has taken the old result away also where the call fails.
unfoldable pub write_response : Context → Mail → Context × Option Error
write_response c result = put_response c result (load c.result_box result.app_id)

abbrev taken_result : Context → ℕ → Option (List ℕ) → Context × Result Error Mail
taken_result c app_id none = (c, err no_result)
taken_result c app_id (some v) = (
  record c { result_box = delete c.result_box app_id },
  ok (record { app_id = app_id; payload = v }),
)

unfoldable pub read_response : Context → ℕ → Context × Result Error Mail
read_response c app_id = taken_result c app_id (load c.result_box app_id)

abbrev pub delivered : Context → Mail → Option (List ℕ) → Context × Option Error
delivered c mail none = (record c { mailbox = store c.mailbox mail.app_id mail.payload }, none)
delivered c mail (some old) = (c, some mailbox_full)

unfoldable pub send_mail : Context → Mail → Context × Option Error
send_mail c mail = delivered c mail (load c.mailbox mail.app_id)

abbrev pub contains : List ℕ → ℕ → Bool
contains [] k = false
contains (j ∷ js) k = if j == k then true else contains js k

abbrev pub is_some : Option (List ℕ) → Bool
is_some none = false
is_some (some v) = true

-- `run_ta` is the execution of an applet's image, from its loading to its exit: it serves the
-- calls that the applet makes on the context, or panics.
module _ (run_ta : ℕ → Context → Outcome Context) where
  -- A call of the function that `Range` is given: `loadTA` fails for an image that is not
  -- registered, which panics.
  abbrev pub visit : ℕ → Context → Outcome Context
  visit k c = if contains c.apps k then run_ta k c else panics

  -- `Range` visits the keys that are still there when their turn comes.
  unfoldable pub visit_all : List ℕ → Context → Outcome Context
  visit_all [] c = returns c
  visit_all (k ∷ ks) c = do
    c' ← if is_some (load c.mailbox k) then visit k c else returns c
    visit_all ks c'

  unfoldable pub dispatch_apps_calls : Context → Outcome Context
  dispatch_apps_calls c = visit_all (keys c.mailbox) c
