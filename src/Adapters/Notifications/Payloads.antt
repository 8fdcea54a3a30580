-- ===== src/Adapters/Notifications/Payloads.antt =====
-- tunnel_sync/adapters/notifications.py: `detect_webhook_type` and `format_payload`.
use cf_docker_tunnel_sync.Base.{
  ℕ, zero, suc, String, ◌<>◌, Bool, true, not, ◌&&◌, ◌||◌, Option, none, some, List, [], ◌∷◌, ◌++◌,
  ◌==◌, if◌then◌else◌,
}
use cf_docker_tunnel_sync.Base.Dict.{Dict}
use cf_docker_tunnel_sync.Base.Text.{strip, lower, prefix, ends_with, has_text, join}
use cf_docker_tunnel_sync.Base.Json.{Json, Fields, Items}
use cf_docker_tunnel_sync.Domain.Models.{or_default}

-- The parts of a URL that are looked at.
pub record UrlParts : Type 0 where
  pub hostname : Option String
  pub path : String

-- What the dispatcher calls: `urlsplit`, which may raise, the digest of a text, `str`, and the
-- redaction of security.py.
pub record Tools : Type 0 where
  pub urlsplit : String → Option UrlParts
  pub sha256 : String → String
  pub str : Json → String
  pub redact_string : String → String
  pub redact_data : Dict Json → Dict Json

unfoldable pub detected : Option UrlParts → String
detected none = "generic"
detected (some parts) =
    let hostname = lower (or_default parts.hostname "") in
    if (hostname == "discord.com" || ends_with hostname ".discord.com")
      && has_text parts.path "/api/webhooks"
    then "discord"
    else if hostname == "hooks.slack.com" || ends_with hostname ".hooks.slack.com"
    then "slack"
    else "generic"

unfoldable pub detect_webhook_type : Tools → String → String → String
detect_webhook_type tools url explicit_type =
    let t = lower (strip explicit_type) in
    if not (t == "" || t == "auto") then t else detected (tools.urlsplit url)

-- The arguments of an alert.
pub record Alert : Type 0 where
  pub event_type : String
  pub title : String
  pub message : String
  pub level : String
  pub details : Dict Json

unfoldable pub to_fields : Dict Json → Fields
to_fields [] = Fields.end
to_fields ((k, v) ∷ rest) = Fields.field k v (to_fields rest)

unfoldable pub to_items : List Json → Items
to_items [] = Items.nil
to_items (x ∷ xs) = Items.cons x (to_items xs)

abbrev object : Dict Json → Json
object d = Json.obj (to_fields d)

abbrev array : List Json → Json
array xs = Json.arr (to_items xs)

abbrev pub is_empty : Dict Json → Bool
is_empty [] = true
is_empty _ = Bool.false

unfoldable pub detail_lines : Tools → Dict Json → List String
detail_lines tools [] = []
detail_lines tools ((k, v) ∷ details) =
    ("• *" <> k <> "*: `" <> tools.str v <> "`") ∷ detail_lines tools details

abbrev pub section : String → Json
section text = object (
    ("type", Json.text "section")
    ∷ ("text", object (("type", Json.text "mrkdwn") ∷ ("text", Json.text text) ∷ []))
    ∷ [])

unfoldable pub slack_payload : Tools → Alert → Json
slack_payload tools a =
    let header = object (
      ("type", Json.text "header")
      ∷ (
        "text",
        object (
            ("type", Json.text "plain_text")
            ∷ ("text", Json.text "🚨 Cloudflare Tunnel Sync Alert")
            ∷ []),
      )
      ∷ []) in
    let blocks = header ∷ section ("*" <> a.title <> "*\n" <> a.message) ∷ [] in
    let more =
      if is_empty a.details then [] else section (join "\n" (detail_lines tools a.details)) ∷ [] in
    object (
      ("text", Json.text ("[cf-tunnel-sync] " <> a.title <> ": " <> a.message))
      ∷ ("blocks", array (blocks ++ more))
      ∷ [])

-- The first `n` details, as fields of an embed.
unfoldable pub embed_fields : Tools → ℕ → Dict Json → List Json
embed_fields tools zero details = []
embed_fields tools (suc n) [] = []
embed_fields tools (suc n) ((k, v) ∷ details) =
    object (
      ("name", Json.text k)
      ∷ ("value", Json.text ("`" <> prefix 100 (tools.str v) <> "`"))
      ∷ ("inline", Json.bool true)
      ∷ [])
    ∷ embed_fields tools n details

unfoldable pub discord_payload : Tools → String → Alert → Json
discord_payload tools iso_time a =
    let embed =
      ("title", Json.text ("🚨 " <> a.title))
      ∷ ("description", Json.text a.message)
      ∷ ("color", Json.num (if lower a.level == "error" then 15158332 else 15844367))
      ∷ ("timestamp", Json.text iso_time)
      ∷ ("footer", object (("text", Json.text "cf-docker-tunnel-sync") ∷ []))
      ∷ [] in
    let more =
      if is_empty a.details then [] else ("fields", array (embed_fields tools 10 a.details)) ∷ [] in
    object (
      ("content", Json.text ("**[cf-tunnel-sync ALERT]** " <> a.title))
      ∷ ("embeds", array (object (embed ++ more) ∷ []))
      ∷ [])

unfoldable pub generic_payload : String → Alert → Json
generic_payload iso_time a = object (
    ("event", Json.text a.event_type)
    ∷ ("level", Json.text (lower a.level))
    ∷ ("title", Json.text a.title)
    ∷ ("message", Json.text a.message)
    ∷ ("timestamp", Json.text iso_time)
    ∷ ("details", object a.details)
    ∷ [])

-- `format_payload`, for the provider that is resolved.
unfoldable pub format_payload : Tools → String → String → Alert → Json
format_payload tools provider iso_time alert =
    let a = record alert {
      title = tools.redact_string alert.title;
      message = tools.redact_string alert.message;
      details = tools.redact_data alert.details;
    } in
    if provider == "slack"
    then slack_payload tools a
    else if provider == "discord"
    then discord_payload tools iso_time a
    else generic_payload iso_time a
