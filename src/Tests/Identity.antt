-- ===== src/Tests/Identity.antt =====
-- Identities.
use est.Common.{◌≡◌, ◌≢◌, refl, true, [], ◌∷◌, ◌++◌, Bytes, ascii}
use est.X509.{Ip, Url}
use est.Strings.{str_le}
use est.Estapi.Identity.{san_set}
use est.Estapi.Identity.Match.{san_set-ne-cons, san_set_line_break}

ip_string : Ip → Bytes
ip_string ip = ip

url_string : Url → Bytes
url_string u = u.host

san_set-ne-cons_example :
    san_set ip_string url_string ((b'd' ∷ []) ∷ (b'd' ∷ []) ∷ []) [] [] []
    ≢ san_set ip_string url_string ((b'd' ∷ []) ∷ []) [] [] []
san_set-ne-cons_example =
    san_set-ne-cons ip_string url_string (b'd' ∷ []) ((b'd' ∷ []) ∷ []) [] [] []

sorted : str_le (ascii "dns:" ++ (b'a' ∷ [])) (ascii "dns:" ++ (b'b' ∷ [])) ≡ true
unfolding str_le ascii
sorted = refl

san_set_line_break_example :
    san_set ip_string url_string
      (((b'a' ∷ []) ++ (b'\n' ∷ (ascii "dns:" ++ (b'b' ∷ [])))) ∷ [])
      []
      []
      []
    ≡ san_set ip_string url_string ((b'a' ∷ []) ∷ (b'b' ∷ []) ∷ []) [] [] []
san_set_line_break_example = san_set_line_break ip_string url_string (b'a' ∷ []) (b'b' ∷ []) sorted
