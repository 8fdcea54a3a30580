-- ===== src/Tests/Naming.antt =====
-- Hostnames with a scheme, a port and capitals, and one with a newline.
use cf_docker_tunnel_sync.Base.{◌≡◌, refl, some, string_dec, arith}
use cf_docker_tunnel_sync.Base.Text.{strip, lower, before, after?, text_length}
use cf_docker_tunnel_sync.Domain.Hostnames.{
  scheme_cut, host_part, rstrip_dots, split_dots, is_alnum, ends_alnum, matches_body, chop_newline,
  matches_label, is_label, all_labels, are_labels, checked, normalize_text, normalize_hostname,
}
use cf_docker_tunnel_sync.Domain.Hostnames.Validity.{IsHostname, normalize_hostname-IsHostname}
use cf_docker_tunnel_sync.Domain.Hostnames.Idempotence.{normalize_hostname-normalize_hostname}

cleaned :
    normalize_hostname (some " https://u@*.App.Example.com.:8443/x?y ") ≡ some "*.app.example.com"
unfolding normalize_hostname normalize_text checked strip host_part scheme_cut before after?
    rstrip_dots lower split_dots are_labels is_label matches_label matches_body ends_alnum is_alnum
    chop_newline all_labels text_length string_dec
cleaned = refl

-- A newline inside passes.
with_newline : normalize_hostname (some "app\n.example.com") ≡ some "app\n.example.com"
unfolding normalize_hostname normalize_text checked strip host_part scheme_cut before after?
    rstrip_dots lower split_dots are_labels is_label matches_label matches_body ends_alnum is_alnum
    chop_newline all_labels text_length string_dec
with_newline = refl

-- A newline at the end is seen only by the second call.
newline_at_end : normalize_hostname (some "app.example.com\n.") ≡ some "app.example.com\n"
unfolding normalize_hostname normalize_text checked strip host_part scheme_cut before after?
    rstrip_dots lower split_dots are_labels is_label matches_label matches_body ends_alnum is_alnum
    chop_newline all_labels text_length string_dec
newline_at_end = refl

normalize_hostname-IsHostname_example : IsHostname "*.app.example.com"
normalize_hostname-IsHostname_example =
    normalize_hostname-IsHostname " https://u@*.App.Example.com.:8443/x?y " "*.app.example.com"
      cleaned

normalize_hostname-normalize_hostname_example :
    normalize_hostname (some "*.app.example.com") ≡ some "*.app.example.com"
normalize_hostname-normalize_hostname_example =
    normalize_hostname-normalize_hostname " https://u@*.App.Example.com.:8443/x?y "
      "*.app.example.com" cleaned (omega arith)
