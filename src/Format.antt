-- ===== src/Format.antt =====
-- messaging/format/format.go: the limits of each platform, the label that a message gets, the
-- truncation and the splitting of long messages. Texts are byte lists, as Go's strings are.
pub mod Split
pub mod Platforms
pub mod Oversize
mod Tests
use vassago_sdk.Prelude.{
  ℕ, zero, suc, Bool, true, false, not, ◌&&◌, List, [], ◌∷◌, ◌++◌, map, Option, none, some, leb,
  if◌then◌else◌, Text, codes, text_eq, Result, label_error, has_prefix, last_index, length, take,
  drop, is_nil, Error,
}
use mathlib.Core.Option

pub record PlatformLimits : Type 0 where
  pub max_message_len : ℕ
  pub supports_markdown : Bool
  pub supports_html : Bool
  pub split_prefix : Text

abbrev pub continued : Text
continued = codes "(continued) "

abbrev limits : ℕ → Bool → Bool → Text → PlatformLimits
limits n markdown html prefix = record {
  max_message_len = n;
  supports_markdown = markdown;
  supports_html = html;
  split_prefix = prefix;
}

-- `PlatformLimitsMap`
abbrev pub platform_limits_map : List (Text × PlatformLimits)
platform_limits_map =
    (codes "discord", limits 2000 true false continued)
    ∷ (codes "telegram", limits 4096 false true continued)
    ∷ (codes "imessage", limits 4000 false false continued)
    ∷ (codes "email", limits 50000 false false [])
    ∷ []

-- `DefaultLimits`
abbrev pub default_limits : PlatformLimits
default_limits = limits 2000 false false continued

-- A read of a map with text keys, the default for a missing key.
unfoldable pub lookup_or {ℓ} : {A : Type ℓ} → Text → List (Text × A) → A → A
lookup_or k [] d = d
lookup_or k ((j, v) ∷ m) d = if text_eq j k then v else lookup_or k m d

unfoldable pub get_platform_limits : Text → PlatformLimits
unfolding lookup_or
get_platform_limits platform = lookup_or platform platform_limits_map default_limits

unfoldable pub supported_platforms : List Text
supported_platforms = codes "discord" ∷ codes "telegram" ∷ codes "imessage" ∷ codes "email" ∷ []

abbrev unsupported : Text → Error
unsupported platform = Error.message (
    codes "unsupported platform: "
    ++ (platform ++ codes ". Supported: discord, telegram, imessage, email"))

-- The loop of `ValidatePlatform`; `none` is the nil error.
validate_among : Text → List Text → Option Error
validate_among platform [] = some (unsupported platform)
validate_among platform (p ∷ ps) = if text_eq p platform then none else validate_among platform ps

unfoldable pub validate_platform : Text → Option Error
unfolding validate_among supported_platforms
validate_platform platform = validate_among platform supported_platforms

-- The switch of `ComposePlatformContext`.
abbrev platform_label : Text → Text
platform_label platform =
    if text_eq platform (codes "discord")
    then codes "Discord"
    else if text_eq platform (codes "telegram")
    then codes "Telegram"
    else if text_eq platform (codes "imessage")
    then codes "iMessage"
    else if text_eq platform (codes "email")
    then codes "Email"
    else platform

unfoldable pub compose_platform_context : Text → Text → Text → Text
compose_platform_context platform channel_name sender_name =
    let label = platform_label platform in
    if not (is_nil sender_name) && not (is_nil channel_name)
    then codes "[Message from "
      ++ (sender_name
          ++ (codes " on " ++ (label ++ (codes " in #" ++ (channel_name ++ codes "]")))))
    else if not (is_nil sender_name)
    then codes "[Message from " ++ (sender_name ++ (codes " on " ++ (label ++ codes "]")))
    else if not (is_nil channel_name)
    then codes "[Message on " ++ (label ++ (codes " in #" ++ (channel_name ++ codes "]")))
    else codes "[Message on " ++ (label ++ codes "]")

abbrev pub truncated_mark : Text
truncated_mark = codes "\n... (truncated)"

unfoldable pub format_email_message : Text → PlatformLimits → Text
format_email_message message l =
    if has_prefix message (codes "Subject: ")
    then (if leb (length message) l.max_message_len
        then message
        else take l.max_message_len message ++ truncated_mark)
    else if leb (length message) l.max_message_len
    then message
    else take l.max_message_len message ++ truncated_mark

unfoldable pub format_message_for_platform : Text → Text → Text
unfolding format_email_message
format_message_for_platform platform message =
    let l = get_platform_limits platform in
    if text_eq platform (codes "email")
    then format_email_message message l
    else if leb (length message) l.max_message_len
    then message
    else take l.max_message_len message ++ truncated_mark

-- Where the next chunk of at most `m` bytes ends: behind the last newline of the first `m`
-- bytes, unless there is none, or only at the very start.
pub chunk_end : ℕ → Text → ℕ
chunk_end m s = elim (last_index (take m s) b'\n') [
  | none ↦ m
  | some zero ↦ m
  | some (suc i) ↦ suc (suc i)
]

-- The loop of `splitMessage` on fuel; `none` is a loop that has not ended yet.
pub split_loop : ℕ → ℕ → Text → Option (List Text)
split_loop zero m s = none
split_loop (suc fuel) m s =
    let rest =
      Option.map (◌∷◌ (take (chunk_end m s) s)) (split_loop fuel m (drop (chunk_end m s) s)) in
    if is_nil s then some [] else if leb (length s) m then some (s ∷ []) else rest

-- The fuel is one round for each byte, and one more.
unfoldable pub split_message : Text → ℕ → Option (List Text)
split_message s m = if leb (length s) m then some (s ∷ []) else split_loop (suc (length s)) m s

-- The loop that puts the prefix before every chunk but the first.
abbrev pub prefix_rest : Text → List Text → List Text
prefix_rest prefix [] = []
prefix_rest prefix (c ∷ cs) = c ∷ map (λ d. if not (is_nil prefix) then prefix ++ d else d) cs

unfoldable pub split_message_for_platform : Text → Text → Option (List Text)
split_message_for_platform platform message =
    let l = get_platform_limits platform in
    if leb (length message) l.max_message_len
    then some (message ∷ [])
    else Option.map (prefix_rest l.split_prefix) (split_message message l.max_message_len)

-- `ValidateEmailTarget`; `parse` is `mail.ParseAddress` with the address of its result.
abbrev pub validate_email_target : (Text → Result Text) → Text → Result Text
validate_email_target parse target =
    label_error (codes "invalid email address: " ++ target) (parse target)
