-- ===== src/Messages/Supported/Kinds.antt =====
-- The requests and responses of android_keymaster_messages.h that derive from SupportedByAlgorithm,
-- SupportedByAlgorithmAndPurpose, SupportedResponse and the empty messages, and add no member and no
-- method: each has the state and the methods of its base.
use device_xiaomi_dash_twrp.Messages.Empty.{EmptyMessage}
use device_xiaomi_dash_twrp.Messages.Supported.ByAlgorithm.{SupportedByAlgorithmRequest}
use device_xiaomi_dash_twrp.Messages.Supported.ByPurpose.{SupportedByAlgorithmAndPurposeRequest}
use device_xiaomi_dash_twrp.Messages.Supported.Response.{SupportedResponse}

abbrev SupportedImportFormatsRequest : Type 0
SupportedImportFormatsRequest = SupportedByAlgorithmRequest

abbrev SupportedExportFormatsRequest : Type 0
SupportedExportFormatsRequest = SupportedByAlgorithmRequest

abbrev SupportedBlockModesRequest : Type 0
SupportedBlockModesRequest = SupportedByAlgorithmAndPurposeRequest

abbrev SupportedPaddingModesRequest : Type 0
SupportedPaddingModesRequest = SupportedByAlgorithmAndPurposeRequest

abbrev SupportedDigestsRequest : Type 0
SupportedDigestsRequest = SupportedByAlgorithmAndPurposeRequest

abbrev SupportedAlgorithmsResponse : Type 0
SupportedAlgorithmsResponse = SupportedResponse

abbrev SupportedBlockModesResponse : Type 0
SupportedBlockModesResponse = SupportedResponse

abbrev SupportedPaddingModesResponse : Type 0
SupportedPaddingModesResponse = SupportedResponse

abbrev SupportedDigestsResponse : Type 0
SupportedDigestsResponse = SupportedResponse

abbrev SupportedImportFormatsResponse : Type 0
SupportedImportFormatsResponse = SupportedResponse

abbrev SupportedExportFormatsResponse : Type 0
SupportedExportFormatsResponse = SupportedResponse

abbrev DeleteAllKeysRequest : Type 0
DeleteAllKeysRequest = EmptyMessage

abbrev DestroyAttestationIdsRequest : Type 0
DestroyAttestationIdsRequest = EmptyMessage

abbrev GetHmacSharingParametersRequest : Type 0
GetHmacSharingParametersRequest = EmptyMessage

abbrev EarlyBootEndedRequest : Type 0
EarlyBootEndedRequest = EmptyMessage

abbrev EarlyBootEndedResponse : Type 0
EarlyBootEndedResponse = EmptyMessage

abbrev DeviceLockedResponse : Type 0
DeviceLockedResponse = EmptyMessage
