-- ===== src/Security/Limits/Resource.antt =====
-- crates/brolga-security/src/limits.rs, `ResourceLimits`: the four groups together.
use brolga.Security.Limits.{Checked, ok, ◌>>◌}
use brolga.Security.Limits.Input
use brolga.Security.Limits.Archive
use brolga.Security.Limits.Xml
use brolga.Security.Limits.Response

pub record ResourceLimits : Type 0 where
  pub input : Input.InputLimits
  pub archive : Archive.ArchiveLimits
  pub xml : Xml.XmlLimits
  pub response : Response.ResponseLimits

unfoldable pub defaults : ResourceLimits
defaults = record {
  input = Input.defaults;
  archive = Archive.defaults;
  xml = Xml.defaults;
  response = Response.defaults;
}

unfoldable pub validated : ResourceLimits → Checked ResourceLimits
validated l = do
  Input.validated l.input
  Archive.validated l.archive
  Xml.validated l.xml
  Response.validated l.response
  ok l

-- Every field of every group lies in its range.
pub record IsInRange (l : ResourceLimits) : Type 0 where
  pub input : Input.IsInRange l.input
  pub archive : Archive.IsInRange l.archive
  pub xml : Xml.IsInRange l.xml
  pub response : Response.IsInRange l.response
