-- ===== src/Notifications/Ssrf/Ranges.antt =====
-- The blocklist of src/notifications/ssrf.rs, as ranges of 32-bit numbers.
use legaltech_contract_autom.Common.{
  ℕ, ◌+◌, ◌*◌, ◌<◌, Bool, true, false, not, ◌&&◌, ◌||◌, ◌≡◌, refl, ◌∙◌, List, [], ◌∷◌, leb, ◌==◌,
  if◌then◌else◌, arith, any,
}
use legaltech_contract_autom.Notifications.Ssrf.{
  Ipv4Addr, is_public, is_public_v4, v4, is_loopback_v4, is_link_local_v4, is_broadcast_v4,
  is_unspecified_v4,
}

-- The address in network order.
abbrev pub to_u32 : Ipv4Addr → ℕ
to_u32 ip = ip.a * 16_777_216 + ip.b * 65_536 + ip.c * 256 + ip.d

-- The first and the last address of a block.
pub record Block : Type 0 where
  pub first : ℕ
  pub last : ℕ

abbrev pub within : ℕ → Block → Bool
within n block = leb block.first n && leb n block.last

-- 127/8, 10/8, 172.16/12, 192.168/16, 169.254/16, 255.255.255.255, 0.0.0.0, 192.0.2/24,
-- 198.51.100/24, 203.0.113/24, 100.64/10
abbrev loopback : Block
loopback = record { first = 2_130_706_432; last = 2_147_483_647 }

abbrev private_10 : Block
private_10 = record { first = 167_772_160; last = 184_549_375 }

abbrev private_172 : Block
private_172 = record { first = 2_886_729_728; last = 2_887_778_303 }

abbrev private_192 : Block
private_192 = record { first = 3_232_235_520; last = 3_232_301_055 }

abbrev link_local : Block
link_local = record { first = 2_851_995_648; last = 2_852_061_183 }

abbrev broadcast : Block
broadcast = record { first = 4_294_967_295; last = 4_294_967_295 }

abbrev unspecified : Block
unspecified = record { first = 0; last = 0 }

abbrev documentation_1 : Block
documentation_1 = record { first = 3_221_225_984; last = 3_221_226_239 }

abbrev documentation_2 : Block
documentation_2 = record { first = 3_325_256_704; last = 3_325_256_959 }

abbrev documentation_3 : Block
documentation_3 = record { first = 3_405_803_776; last = 3_405_804_031 }

abbrev shared : Block
shared = record { first = 1_681_915_904; last = 1_686_110_207 }

abbrev pub blocked : List Block
blocked =
    loopback ∷ private_10 ∷ private_172 ∷ private_192 ∷ link_local ∷ broadcast ∷ unspecified
    ∷ documentation_1 ∷ documentation_2 ∷ documentation_3 ∷ shared ∷ []

-- An address of four octets.
abbrev pub IsIpv4 : Ipv4Addr → Type 0
IsIpv4 ip = (ip.a < 256) × (ip.b < 256) × (ip.c < 256) × (ip.d < 256)

-- The tests of the code, in its grouping, against the one test over all blocks.
regroup :
    (l p q r s t u v w x y : Bool)
    → (if l then false else not ((p || q || r) || s || t || u || (v || w || x) || y))
      ≡ not (l || (p || (q || (r || (s || (t || (u || (v || (w || (x || (y || false)))))))))))
regroup true p q r s t u v w x y = refl
regroup false true q r s t u v w x y = refl
regroup false false true r s t u v w x y = refl
regroup false false false true s t u v w x y = refl
regroup false false false false s t u v w x y = ground arith

module _ (ip : Ipv4Addr) (octets : IsIpv4 ip) where
  in_loopback : (is_loopback_v4 ip) ≡ within (to_u32 ip) loopback
  in_loopback = ground arith

  in_private_10 : (ip.a == 10) ≡ within (to_u32 ip) private_10
  in_private_10 = ground arith

  in_private_172 : (ip.a == 172 && leb 16 ip.b && leb ip.b 31) ≡ within (to_u32 ip) private_172
  in_private_172 = ground arith

  in_private_192 : (ip.a == 192 && ip.b == 168) ≡ within (to_u32 ip) private_192
  in_private_192 = ground arith

  in_link_local : (is_link_local_v4 ip) ≡ within (to_u32 ip) link_local
  in_link_local = ground arith

  in_broadcast : (is_broadcast_v4 ip) ≡ within (to_u32 ip) broadcast
  in_broadcast = ground arith

  in_unspecified : (is_unspecified_v4 ip) ≡ within (to_u32 ip) unspecified
  in_unspecified = ground arith

  in_documentation_1 : (ip.a == 192 && ip.b == 0 && ip.c == 2) ≡ within (to_u32 ip) documentation_1
  in_documentation_1 = ground arith

  in_documentation_2 :
      (ip.a == 198 && ip.b == 51 && ip.c == 100) ≡ within (to_u32 ip) documentation_2
  in_documentation_2 = ground arith

  in_documentation_3 :
      (ip.a == 203 && ip.b == 0 && ip.c == 113) ≡ within (to_u32 ip) documentation_3
  in_documentation_3 = ground arith

  in_shared : (ip.a == 100 && leb 64 ip.b && leb ip.b 127) ≡ within (to_u32 ip) shared
  in_shared = ground arith

  -- The address is public exactly if its number lies in none of the blocks.
  pub is_public_v4-ranges : is_public (v4 ip) false ≡ not (any (within (to_u32 ip)) blocked)
  unfolding is_public is_public_v4
  is_public_v4-ranges =
      regroup (is_loopback_v4 ip) (ip.a == 10) (ip.a == 172 && leb 16 ip.b && leb ip.b 31)
        (ip.a == 192 && ip.b == 168) (is_link_local_v4 ip) (is_broadcast_v4 ip)
        (is_unspecified_v4 ip) (ip.a == 192 && ip.b == 0 && ip.c == 2)
        (ip.a == 198 && ip.b == 51 && ip.c == 100) (ip.a == 203 && ip.b == 0 && ip.c == 113)
        (ip.a == 100 && leb 64 ip.b && leb ip.b 127)
      ∙ (λ i. not (
          in_loopback i
          || (in_private_10 i
              || (in_private_172 i
                  || (in_private_192 i
                      || (in_link_local i
                          || (in_broadcast i
                              || (in_unspecified i
                                  || (in_documentation_1 i
                                      || (in_documentation_2 i
                                          || (in_documentation_3 i
                                              || (in_shared i || false))))))))))))
