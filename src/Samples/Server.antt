-- ===== src/Samples/Server.antt =====
-- A sample of what the server takes from outside.
use dependency_guardian.Prelude.{[], none}
use dependency_guardian.Proxy.Server.{Environment}
use dependency_guardian.Samples.{sample_services, sample_documents, sample_codec, sample_files}
use dependency_guardian.Samples.Memory.{sample_gorm}

abbrev pub sample_environment : Environment
sample_environment = record {
  services = sample_services;
  documents = sample_documents [];
  xml = record {
    unmarshal = λ text. none;
    marshal_indent = λ metadata. none;
    decode_pom = λ text. none;
  };
  decode_info = λ text. none;
  codec = sample_codec;
  gorm = sample_gorm;
  visits = λ directory. sample_files;
  rfc3339 = λ t. "";
}
