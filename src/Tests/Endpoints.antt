-- ===== src/Tests/Endpoints.antt =====
-- Endpoints of each kind.
use rsqlite_rsync.Base.{◌≡◌, refl, true, false}
use rsqlite_rsync.KvText.Chars.{chars}
use rsqlite_rsync.Endpoint.Address.{is_ip_addr}
use rsqlite_rsync.Endpoint.{parse, local, remote, grpc}

grpc_endpoint :
    parse (chars "grpcs://n1:443//t/a.db") ≡ grpc (chars "https://n1:443") (chars "t/a.db")
unfolding parse chars
grpc_endpoint = refl

host_endpoint : parse (chars "u@h:/d/a.db") ≡ remote (chars "u@h") (chars "/d/a.db")
unfolding parse chars
host_endpoint = refl

bracketed_endpoint : parse (chars "[fe80::1]:/d/a.db") ≡ remote (chars "fe80::1") (chars "/d/a.db")
unfolding parse chars
bracketed_endpoint = refl

address_endpoint : parse (chars "fe80::1:/d/a.db") ≡ remote (chars "fe80::1") (chars "/d/a.db")
unfolding parse chars
address_endpoint = refl

local_endpoint : parse (chars "somedir:file.db") ≡ local (chars "somedir:file.db")
unfolding parse chars
local_endpoint = refl

addresses :
    (is_ip_addr (chars "192.168.1.50") ≡ true)
    × (is_ip_addr (chars "256.1.1.1") ≡ false)
    × (is_ip_addr (chars "01.1.1.1") ≡ false)
    × (is_ip_addr (chars "::ffff:1.2.3.4") ≡ true)
    × (is_ip_addr (chars "1:2:3:4:5:6:7:8:9") ≡ false)
unfolding is_ip_addr chars
addresses = (refl, refl, refl, refl, refl)
