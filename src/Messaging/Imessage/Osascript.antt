-- ===== src/Messaging/Imessage/Osascript.antt =====
-- The sender of messaging/imessage_adapter.go, which runs osascript.
use vassago_sdk.Prelude.{
  List, [], ◌∷◌, ◌++◌, Option, none, some, Text, codes, Error, Result, ok, err,
}
use vassago_sdk.Prelude.Trim.{trim_space}
use vassago_sdk.Messaging.Imessage.Script.{build_script}

-- `appleScriptSender.Send`; `run` is the command runner, with the output of the command and its
-- error.
unfoldable pub send : (Text → List Text → Text × Option Error) → Text → Text → Result Text
unfolding build_script trim_space
send run target message =
    let r = run (codes "osascript") (codes "-e" ∷ build_script target message ∷ []) in
    elim r.1 [
      | none ↦ ok (trim_space r.0)
      | some e ↦ err (Error.wrap_with (codes "osascript failed") e (codes ", output: " ++ r.0))
    ]
