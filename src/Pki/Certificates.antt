-- ===== src/Pki/Certificates.antt =====
-- The specifications that the PKI reconciler gives its issuers and certificates.
use kubeception_operator.Base.{String, true, false, Option, some, none, [], ◌∷◌, ◌++◌}
use kubeception_operator.Types.Crd.{Pki}
use kubeception_operator.Types.CertManager.{
  IssuerSpec, self_signed, ca, PrivateKey, rsa, IssuerRef, CertificateSpec,
}

abbrev rsa_2048 : Option PrivateKey
rsa_2048 = some (record { algorithm = rsa; size = 2048 })

abbrev issued_by : String → IssuerRef
issued_by name = record { name = name; kind = "Issuer" }

unfoldable pub root_issuer : IssuerSpec
root_issuer = self_signed

-- Issues in the name of the certificate authority, with the key in its Secret.
unfoldable pub ca_issuer : Pki → IssuerSpec
ca_issuer pki = ca pki.spec.ca.name

unfoldable pub root_ca : Pki → CertificateSpec
root_ca pki = record {
  is_ca = true;
  common_name = "ca";
  subject = none;
  ip_addresses = [];
  dns_names = "localhost" ∷ [];
  secret_name = pki.spec.ca.name;
  private_key = rsa_2048;
  issuer_ref = issued_by pki.spec.name;
}

-- The address is appended to both lists of names.
unfoldable pub kube_api_server_cert : Pki → CertificateSpec
kube_api_server_cert pki = record {
  is_ca = false;
  common_name = "kube-apiserver";
  subject = some ("kubernetes" ∷ []);
  ip_addresses = pki.spec.kube_api_server.ip_addresses ++ pki.spec.control_plane_ip ∷ [];
  dns_names = pki.spec.kube_api_server.dns_names ++ pki.spec.control_plane_ip ∷ [];
  secret_name = pki.spec.kube_api_server.name;
  private_key = rsa_2048;
  issuer_ref = issued_by pki.spec.ca.name;
}

unfoldable pub admin_cert : Pki → CertificateSpec
admin_cert pki = record {
  is_ca = false;
  common_name = "cluster-admin";
  subject = some ("system:masters" ∷ []);
  ip_addresses = [];
  dns_names = [];
  secret_name = pki.spec.admin.name;
  private_key = rsa_2048;
  issuer_ref = issued_by pki.spec.ca.name;
}

unfoldable pub service_accounts_cert : Pki → CertificateSpec
service_accounts_cert pki = record {
  is_ca = false;
  common_name = "kubernetes";
  subject = some ("Kubernetes" ∷ []);
  ip_addresses = [];
  dns_names = [];
  secret_name = pki.spec.service_accounts.name;
  private_key = rsa_2048;
  issuer_ref = issued_by pki.spec.ca.name;
}

unfoldable pub kube_controller_manager_cert : Pki → CertificateSpec
kube_controller_manager_cert pki = record {
  is_ca = false;
  common_name = "system:kube-controller-manager";
  subject = some ("system:kube-controller-manager" ∷ []);
  ip_addresses = [];
  dns_names = [];
  secret_name = pki.spec.kube_controller_manager.name;
  private_key = rsa_2048;
  issuer_ref = issued_by pki.spec.ca.name;
}

unfoldable pub kube_scheduler_cert : Pki → CertificateSpec
kube_scheduler_cert pki = record {
  is_ca = false;
  common_name = "system:kube-scheduler";
  subject = some ("system:kube-scheduler" ∷ []);
  ip_addresses = [];
  dns_names = [];
  secret_name = pki.spec.kube_scheduler.name;
  private_key = rsa_2048;
  issuer_ref = issued_by pki.spec.ca.name;
}

unfoldable pub konnectivity_cert : Pki → CertificateSpec
konnectivity_cert pki = record {
  is_ca = false;
  common_name = "system:konnectivity-server";
  subject = none;
  ip_addresses = [];
  dns_names = [];
  secret_name = pki.spec.konnectivity.name;
  private_key = rsa_2048;
  issuer_ref = issued_by pki.spec.ca.name;
}
