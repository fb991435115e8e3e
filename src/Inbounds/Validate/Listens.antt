-- ===== src/Inbounds/Validate/Listens.antt =====
-- What validateListen accepts.
use Prim.Native.String.{len}
use aegis_panel.Common.{
  ℕ, ◌≤◌, String, ◌≡◌, ◌≢◌, ◌↔◌, refl, Bool, true, not, List, [], ◌∷◌, arith, codes, every,
  is_text_iff, is_name_char, is_control,
}
use aegis_panel.Inbounds.Model.{ok}
use aegis_panel.Inbounds.Validate.{is_host_char, is_printable_host, validate_listen, max_listen_len}

abbrev pub printable : ℕ → Bool
printable r = not (is_control r)

host_printable : (r : ℕ) → is_host_char r ≡ true → printable r ≡ true
unfolding is_host_char is_name_char is_control
host_printable r h = ground arith

hosts_printable : (rs : List ℕ) → every is_host_char rs ≡ true → every printable rs ≡ true
hosts_printable [] h = refl
hosts_printable (r ∷ rs) h = ground (arith, host_printable r, hosts_printable rs)

-- As far as net.ParseIP accepts only texts of letters, digits, '-', '_', '.' and ':', its answer
-- plays no part: an address passes just if it is a text of these characters, of 1 to 63 bytes.
pub validate_listen_iff :
    (is_ip : String → Bool) (s : String)
    → ((t : String) → is_ip t ≡ true → every is_host_char (codes t) ≡ true)
    → (validate_listen is_ip s ≡ ok tt)
      ↔ ((s ≢ "") × (len s ≤ max_listen_len) × (every is_host_char (codes s) ≡ true))
unfolding validate_listen is_printable_host
validate_listen_iff is_ip s known = (
  λ h. (ground (arith, is_text_iff s ""), ground arith, ground (arith, known s)),
  λ (filled, short, hosts). ground (arith, is_text_iff s "", hosts_printable (codes s) hosts),
)
