-- ===== src/Auth/Tests.antt =====
-- A caller that passes (src/auth.rs).
use g_kms.Prelude.{refl, [], ◌∷◌, some, ok, codes}
use g_kms.I64.{in_tolerance}
use g_kms.Gossip.{AuthContext}
use g_kms.Auth.{Authority, authenticate}
use g_kms.Auth.Members.{IsAuthenticated, authenticate-IsMember}

abbrev authority : Authority
authority = record {
  recover_pubkey = λ m s. some (codes "pk");
  eth_address = λ k. 10;
  decimal = λ n. codes "1000";
  node_list = λ a. ok (10 ∷ 20 ∷ []);
  require_verified = λ a. ok tt;
}

abbrev caller : AuthContext
caller = record { caller_pubkey = codes "pk"; caller_eth_addr = 10 }

authenticate-IsMember_example :
    IsAuthenticated authority (some (codes "sig", 1000)) (codes "Gossip") 1010 300 caller
unfolding authenticate in_tolerance
authenticate-IsMember_example =
    authenticate-IsMember authority (some (codes "sig", 1000)) (codes "Gossip") 1010 300 caller refl
