-- ===== src/Forward/Request.antt =====
-- forward.go: the receiver's address, what `send` makes of a reply, and the file of the checkpoint.
use plv.Prelude.{ℕ, Bool, true, false, ◌==◌, if◌then◌else◌, ◌++◌, Option, none, some, take}
use plv.Go.Text.{Text, lit, trim_right, trim_space}
use plv.Forward.{ForwardState, Checkpoints, save_checkpoint}

abbrev pub forward_state_file : Text
forward_state_file = lit "forward-state.json"

abbrev pub temporary_file : Text
temporary_file = forward_state_file ++ lit ".tmp"

-- strings.TrimRight of the slashes
unfoldable pub receiver_url : Text → Text
receiver_url url = trim_right (λ c. c == b'/') url

-- Anything but ok is an error of `send`.
pub data SendResult : Type 0 where
  ok failed : SendResult
  mismatch : Text → SendResult
  refused : ℕ → Text → SendResult

-- The status and the body of the reply; none where the request failed.
unfoldable pub send_result : Option (ℕ × Text) → SendResult
send_result none = SendResult.failed
send_result (some (code, body)) =
    let msg = trim_space (take 8192 body) in
    if code == 200
    then SendResult.ok
    else if code == 426
    then SendResult.mismatch msg
    else SendResult.refused code msg

-- `marshal` is Marshal of json. The file beside the real one is written first, and renamed.
module _ {D : Type 0} (marshal : ForwardState → Option Text) (write : Text → Text → D → D × Bool)
    (rename : Text → Text → D → D) where
  unfoldable pub rename_if : D × Bool → D
  rename_if (d, true) = rename temporary_file forward_state_file d
  rename_if (d, false) = d

  unfoldable pub save_state : Checkpoints → D → D
  save_state cp d = elim (marshal (save_checkpoint cp)) [
    | none ↦ d
    | some b ↦ rename_if (write temporary_file b d)
  ]
