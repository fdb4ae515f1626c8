-- ===== src/Cooperation.antt =====
-- dfmplugin-cooperation: the file transfer of the cooperation program in the file manager. The
-- settings store of the plugin is the module Settings.
pub mod Config
pub mod ConfigLaws
pub mod Menu
pub mod MenuLaws
pub mod AppConfig
pub mod AppConfigLaws
pub mod Dialog
pub mod DialogLaws
pub mod Plugin
pub mod PluginLaws
pub mod Tests
