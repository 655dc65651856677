-- ===== src/Metrics/Stop.antt =====
-- Who can stop the crawl through /stop of internal/metrics/metrics.go.
use lost_media_finder.Prelude.{◌≡◌, true, some, Bool-cases, Option-cases, get_or, inl, inr}
use lost_media_finder.Text.{Text, codes, eq_text, eq_text_iff}
use lost_media_finder.Metrics.{Net, is_loopback, handle_stop}

module _ (n : Net) where
  -- The address, without the port where it has one, is an IP address of the loopback interface.
  abbrev pub IsLocal : Text → Type 0
  IsLocal addr =
      (ip : n.Ip) × (n.parse_ip (get_or (n.split_host_port addr) addr) ≡ some ip)
      × (n.ip_is_loopback ip ≡ true)

  is_loopback-IsLocal : (addr : Text) → is_loopback n addr ≡ true → IsLocal addr
  unfolding is_loopback
  is_loopback-IsLocal addr h =
      elim (Option-cases (n.parse_ip (get_or (n.split_host_port addr) addr))) [
        | inl e ↦ absurd (cc (rw (e, is_loopback) at h))
        | inr (ip, e) ↦ (ip, e, rw (e, is_loopback) at h)
      ]

  -- A request to /stop that stops the crawl is a POST, and its remote address, without the port where
  -- it has one, is an IP address of the loopback interface.
  pub handle_stop-loopback :
      (method remote_addr : Text)
      → (handle_stop n method remote_addr).1 ≡ true
      → (method ≡ codes "POST") × IsLocal remote_addr
  unfolding handle_stop
  handle_stop-loopback method remote_addr h = elim (Bool-cases (eq_text method (codes "POST"))) [
    | inr e ↦ absurd (cc (rw e at h))
    | inl e ↦ elim (Bool-cases (is_loopback n remote_addr)) [
      | inl f ↦ ((eq_text_iff method (codes "POST")).0 e, is_loopback-IsLocal remote_addr f)
      | inr f ↦ absurd (cc (rw (e, f) at h))
    ]
  ]
