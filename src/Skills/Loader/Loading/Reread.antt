-- ===== src/Skills/Loader/Loading/Reread.antt =====
-- A manifest file that was written is read back: `writeManifest` and `xParseManifestFile` of
-- src/skills/skill_loader.cpp.
use a.Shared.Json.{Json}
