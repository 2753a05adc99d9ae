-- ===== src/Transports/Urls.antt =====
-- Equality and order of `RelayUrl` of iroh-base/src/relay_url.rs: those of the texts.
use nexalink_tunnel.Common.{◌≡◌, ◌↔◌, ap, true, Eq}
use nexalink_tunnel.Common.Bytes.{bytes_eq, bytes_eq_iff}
use nexalink_tunnel.Common.Ordered.{
  Ord, bytes_less, bytes_less_irrefl, bytes_less_trans, bytes_less_total,
}
use nexalink_tunnel.Transports.{RelayUrl}

pub RelayUrl_ext : (u v : RelayUrl) → u.url ≡ v.url → u ≡ v
RelayUrl_ext u v h = ap (λ t. record { url = t }) h

pub RelayUrl_eq_iff : (u v : RelayUrl) → (bytes_eq u.url v.url ≡ true) ↔ (u ≡ v)
RelayUrl_eq_iff u v = (
  λ h. RelayUrl_ext u v ((bytes_eq_iff u.url v.url).0 h),
  λ e. (bytes_eq_iff u.url v.url).1 (ap (λ (w : RelayUrl). w.url) e),
)

instance abbrev pub RelayUrl_Eq : Eq RelayUrl
RelayUrl_Eq = record { beq = λ u v. bytes_eq u.url v.url; beq_iff = RelayUrl_eq_iff }

instance abbrev pub RelayUrl_Ord : Ord RelayUrl
RelayUrl_Ord = record {
  less = λ u v. bytes_less u.url v.url;
  less_irrefl = λ u. bytes_less_irrefl u.url;
  less_trans = λ u v w. bytes_less_trans u.url v.url w.url;
  less_total = λ u v n. bytes_less_total u.url v.url (λ p. n (RelayUrl_ext u v p));
}
