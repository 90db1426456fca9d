-- ===== src/Startup/Serving.antt =====
-- What holds of a node whose servers start (src/main.rs).
use g_kms.Prelude.{
  ◌≡◌, sym, ap, subst, Option, none, some, Bytes, codes, ok, >>=-eq-ok, ok_or_step, map_err_step,
  arith,
}
use g_kms.State.{new_state}
use g_kms.Verifier.Pinning.{VerifierConfig, Client, new_client}
use g_kms.Http.{handle_ready}
use g_kms.Startup.{
  Outside, File, Node, StartError, NodeKey, be_value, init_verifier, fetch_signing_key, main,
}

-- The gate that the configuration asks for: open without a verifier section, and otherwise the client
-- that the section describes.
abbrev pub IsConfigured : (Bytes → Option Bytes) → Option VerifierConfig → Option Client → Type 0
IsConfigured decode_hex none client = client ≡ none
IsConfigured decode_hex (some cfg) client =
    (c : Client) × (new_client decode_hex cfg ≡ ok c) × (client ≡ some c)

init_verifier-IsConfigured :
    (decode_hex : Bytes → Option Bytes) (section : Option VerifierConfig) (client : Option Client)
    → init_verifier decode_hex section ≡ ok client
    → IsConfigured decode_hex section client
init_verifier-IsConfigured decode_hex none client h = ground arith
init_verifier-IsConfigured decode_hex (some cfg) client h =
    let (c, made, h1) = >>=-eq-ok (new_client decode_hex cfg) _ h in (c, made, ground arith)

-- A node that starts to serve has loaded its configuration, built the verifier that this describes (so a
-- malformed section never runs without the gate), and fetched its key, whose address is its own; it
-- starts without a share, and says that it is not ready.
main-IsConfigured :
    (out : Outside) (file : Option File) (node : Node)
    → main out file ≡ ok node
    → (f : File) × (key : NodeKey) × (file ≡ some f)
      × IsConfigured out.hex_decode f.verifier node.client
      × (fetch_signing_key f.mock_tee out ≡ ok key)
      × (node.state ≡ new_state f.config (be_value 0 key.eth_address))
      × (handle_ready node.state ≡ record { status_code = 503; body = codes "no share" })
unfolding main handle_ready
main-IsConfigured out file node h =
    let (f, loaded, h1) = ok_or_step file StartError.no_config _ h in
    let (client, built, h2) = map_err_step _ (init_verifier out.hex_decode f.verifier) _ h1 in
    let (key, fetched, h3) = map_err_step _ (fetch_signing_key f.mock_tee out) _ h2 in
    let fresh = new_state f.config (be_value 0 key.eth_address) in
    let made : record { state = fresh; client = client } ≡ node = ground arith in
    let started : fresh ≡ node.state = ap (λ n. n.state) made in
    (
      f,
      key,
      loaded,
      subst (IsConfigured out.hex_decode f.verifier) (ap (λ n. n.client) made)
          (init_verifier-IsConfigured out.hex_decode f.verifier client built),
      fetched,
      sym started,
      ap handle_ready (sym started),
    )
