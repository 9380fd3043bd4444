-- ===== src/Types/CertManager.antt =====
-- The cert-manager objects that the PKI reconciler fills, with the fields that it sets.
use kubeception_operator.Base.{ℕ, String, Bool, Option, List}

-- `IssuerSpec` with its `IssuerConfig`: of the kinds of issuers the program makes two.
pub data IssuerSpec : Type 0 where
  unset : IssuerSpec
  self_signed : IssuerSpec
  ca : String → IssuerSpec

pub data KeyAlgorithm : Type 0 where
  rsa ecdsa ed25519 : KeyAlgorithm

pub record PrivateKey : Type 0 where
  pub algorithm : KeyAlgorithm
  pub size : ℕ

pub record IssuerRef : Type 0 where
  pub name : String
  pub kind : String

-- `subject` holds the organizations of an `X509Subject`.
pub record CertificateSpec : Type 0 where
  pub is_ca : Bool
  pub common_name : String
  pub subject : Option (List String)
  pub ip_addresses : List String
  pub dns_names : List String
  pub secret_name : String
  pub private_key : Option PrivateKey
  pub issuer_ref : IssuerRef
