-- ===== src/Domain/Models/Ownership.antt =====
-- When a DNS record counts as ours.
use cf_docker_tunnel_sync.Base.{
  String, Bool, true, false, ◌≡◌, ◌≢◌, ◌↔◌, Option, none, some, arith, starts_with,
}
use cf_docker_tunnel_sync.Base.Text.{strip}
use cf_docker_tunnel_sync.Domain.Models.{
  owned, adopted, OwnershipTagging, DnsRecord, Comment, text, non_text, or_default, format_comment,
  comment_status, tagged_status, parse_status,
}

-- The comment as the classification reads it.
abbrev pub stripped : Option Comment → Option String
stripped none = some ""
stripped (some (text c)) = some (strip c)
stripped (some non_text) = none

module _ (t : OwnershipTagging) (rec : DnsRecord) (target : String) (active : Bool) where
  -- A record is owned exactly if it is a CNAME to the tunnel whose stripped comment is the tag of
  -- the tunnel, whether or not its host is active.
  pub parse_status-owned : (parse_status t rec target active ≡ owned) ↔ (
      (or_default rec.rec_type "CNAME" ≡ "CNAME")
      × (rec.content ≡ some target)
      × (stripped rec.comment ≡ some (format_comment t)))
  unfolding parse_status tagged_status comment_status
  parse_status-owned = ground arith

  -- A record whose comment is a text or missing is adopted exactly if its host is active and it is
  -- a CNAME to the tunnel whose stripped comment is not the tag of the tunnel and does not begin
  -- with the prefix of the tags.
  pub parse_status-adopted :
      (c : String)
      → stripped rec.comment ≡ some c
      → (parse_status t rec target active ≡ adopted) ↔ (
          (active ≡ true)
          × (or_default rec.rec_type "CNAME" ≡ "CNAME")
          × (rec.content ≡ some target)
          × (c ≢ format_comment t)
          × (starts_with c t.tag_prefix ≡ false))
  unfolding parse_status tagged_status comment_status
  parse_status-adopted c h = ground arith
