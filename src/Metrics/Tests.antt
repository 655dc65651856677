-- ===== src/Metrics/Tests.antt =====
-- A request to /stop from the host itself.
use lost_media_finder.Prelude.{◌≡◌, refl, true, none, some}
use lost_media_finder.Text.{Text, codes, eq_text}
use lost_media_finder.Metrics.{Net, is_loopback, handle_stop}
use lost_media_finder.Metrics.Stop.{IsLocal, handle_stop-loopback}

-- An address without a port is an IP address, and one of them is the host itself.
abbrev local : Net
local = record {
  Ip = Text;
  split_host_port = λ addr. none;
  parse_ip = λ host. some host;
  ip_is_loopback = λ ip. eq_text ip (codes "127.0.0.1");
}

stopped : (handle_stop local (codes "POST") (codes "127.0.0.1")).1 ≡ true
unfolding handle_stop is_loopback eq_text
stopped = refl

handle_stop-loopback_example : (codes "POST" ≡ codes "POST") × IsLocal local (codes "127.0.0.1")
handle_stop-loopback_example = handle_stop-loopback local (codes "POST") (codes "127.0.0.1") stopped
